-- ===== src/Controller/Cluster/Credentials.antt =====
-- Which credentials a cluster's connection test uses.
use mathlib.Core.Path.{subst}
use hyperfleet_controller.Base.{Text, ◌≡◌, refl, ◌↔◌, Option, none, some, arith, Result, ok, err}
use hyperfleet_controller.Api.Meta.{NamespacedName, SecretSelector, Secret}
use hyperfleet_controller.Api.Cluster.{HypervisorCluster}
use hyperfleet_controller.Provider.{AuthConfig}
use hyperfleet_controller.Controller.Kube.{KubeClient}
use hyperfleet_controller.Controller.Cluster.{
  both, try_as, value_of, token_auth, password_auth, get_secret_value, load_token, load_password,
  load_from, load_credentials,
}

try_as-ok :
    {A B : Type 0} (message : Text) (r : Result A) (f : A → Result B) (b : B)
    → try_as message r f ≡ ok b
    → (a : A) × (r ≡ ok a) × (f a ≡ ok b)
try_as-ok message (ok a) f b h = (a, refl, h)
try_as-ok message (err e) f b h = cc

ok-injective : {A : Type 0} {a b : A} → ok a ≡ ok b → a ≡ b
ok-injective h = cc

both-some :
    {A : Type 0} (x y : Option A) (a b : A) → both x y ≡ some (a, b) → (x ≡ some a) × (y ≡ some b)
both-some (some x) (some y) a b h = ground arith
both-some none _ a b h = cc
both-some (some x) none a b h = cc

module _ {W : Type 0} (k : KubeClient W) where
  -- The secret of this name in the namespace has the value under the selector's key.
  pub record HasValue (namespace : Text) (selector : SecretSelector) (w : W) (value : Text)
      : Type 0 where
    pub secret : Secret
    pub found : k.get_secret (record { namespace = namespace; name = selector.name }) w ≡ ok secret
    pub at_key : secret.value_at selector.key ≡ some value

  -- The token pair if the cluster names both of its secrets, and the password pair if it does not.
  pub data AuthFrom (cluster : HypervisorCluster) (w : W) : AuthConfig → Type 0 where
    from_token :
        (id secret : SecretSelector) (a b : Text)
        → cluster.spec.credentials.token_id ≡ some id
        → cluster.spec.credentials.token_secret ≡ some secret
        → HasValue cluster.meta.namespace id w a
        → HasValue cluster.meta.namespace secret w b
        → AuthFrom cluster w (token_auth a b)
    from_password :
        (user pass : SecretSelector) (a b : Text)
        → both cluster.spec.credentials.token_id cluster.spec.credentials.token_secret ≡ none
        → cluster.spec.credentials.username ≡ some user
        → cluster.spec.credentials.password ≡ some pass
        → HasValue cluster.meta.namespace user w a
        → HasValue cluster.meta.namespace pass w b
        → AuthFrom cluster w (password_auth a b)

  get_secret_value-HasValue :
      (namespace : Text) (selector : SecretSelector) (w : W) (value : Text)
      → get_secret_value k namespace selector w ≡ ok value
      → HasValue namespace selector w value
  unfolding get_secret_value
  get_secret_value-HasValue namespace selector w value h =
      let name : NamespacedName = record { namespace = namespace; name = selector.name } in
      let (secret, found, at) =
        try_as-ok _ (k.get_secret name w) (value_of name selector.key) value h in
      record { secret = secret; found = found; at_key = unfold value_of in ground arith }

  HasValue-get_secret_value :
      (namespace : Text) (selector : SecretSelector) (w : W) (value : Text)
      → HasValue namespace selector w value
      → get_secret_value k namespace selector w ≡ ok value
  unfolding get_secret_value value_of
  HasValue-get_secret_value namespace selector w value v = rw (v.found, value_of, v.at_key)

  module _ (cluster : HypervisorCluster) (w : W) where
    token-AuthFrom :
        (id secret : SecretSelector) (auth : AuthConfig)
        → both cluster.spec.credentials.token_id cluster.spec.credentials.token_secret
          ≡ some (id, secret)
        → load_token k cluster.meta.namespace id secret w ≡ ok auth
        → AuthFrom cluster w auth
    unfolding load_token
    token-AuthFrom id secret auth p h =
        let namespace = cluster.meta.namespace in
        let (a, ea, ha) = try_as-ok _ (get_secret_value k namespace id w) _ auth h in
        let (b, eb, hb) = try_as-ok _ (get_secret_value k namespace secret w) _ auth ha in
        let (pi, ps) = both-some _ _ id secret p in
        subst (AuthFrom cluster w) (ok-injective hb) (
          from_token id secret a b pi ps (get_secret_value-HasValue namespace id w a ea)
            (get_secret_value-HasValue namespace secret w b eb))

    password-AuthFrom :
        (user pass : SecretSelector) (auth : AuthConfig)
        → both cluster.spec.credentials.token_id cluster.spec.credentials.token_secret ≡ none
        → both cluster.spec.credentials.username cluster.spec.credentials.password
          ≡ some (user, pass)
        → load_password k cluster.meta.namespace user pass w ≡ ok auth
        → AuthFrom cluster w auth
    unfolding load_password
    password-AuthFrom user pass auth q p h =
        let namespace = cluster.meta.namespace in
        let (a, ea, ha) = try_as-ok _ (get_secret_value k namespace user w) _ auth h in
        let (b, eb, hb) = try_as-ok _ (get_secret_value k namespace pass w) _ auth ha in
        let (pu, pp) = both-some _ _ user pass p in
        subst (AuthFrom cluster w) (ok-injective hb) (
          from_password user pass a b q pu pp (get_secret_value-HasValue namespace user w a ea)
            (get_secret_value-HasValue namespace pass w b eb))

    load_from-AuthFrom :
        (tokens passwords : Option (SecretSelector × SecretSelector)) (auth : AuthConfig)
        → both cluster.spec.credentials.token_id cluster.spec.credentials.token_secret ≡ tokens
        → both cluster.spec.credentials.username cluster.spec.credentials.password ≡ passwords
        → load_from k cluster.meta.namespace tokens passwords w ≡ ok auth
        → AuthFrom cluster w auth
    unfolding load_from
    load_from-AuthFrom (some (id, secret)) passwords auth p q h = token-AuthFrom id secret auth p h
    load_from-AuthFrom none (some (user, pass)) auth p q h = password-AuthFrom user pass auth p q h
    load_from-AuthFrom none none auth p q h = cc

    AuthFrom-load_credentials :
        (auth : AuthConfig) → AuthFrom cluster w auth → load_credentials k cluster w ≡ ok auth
    unfolding load_credentials load_from load_token load_password
    AuthFrom-load_credentials _ (from_token id secret a b pi ps ha hb) =
        let namespace = cluster.meta.namespace in
        ground (
          arith,
          HasValue-get_secret_value namespace id w a ha,
          HasValue-get_secret_value namespace secret w b hb,
        )
    AuthFrom-load_credentials _ (from_password user pass a b q pu pp ha hb) =
        let namespace = cluster.meta.namespace in
        ground (
          arith,
          HasValue-get_secret_value namespace user w a ha,
          HasValue-get_secret_value namespace pass w b hb,
        )

    -- Credentials are loaded exactly in two ways: the token pair, by its values in the cluster's
    -- namespace, if the cluster names both of its secrets, and the user name and password if it
    -- does not and names both of these. A missing secret or key is an error, with no way around it.
    pub load_credentials-AuthFrom :
        (auth : AuthConfig) → (load_credentials k cluster w ≡ ok auth) ↔ AuthFrom cluster w auth
    load_credentials-AuthFrom auth = (
      λ h. load_from-AuthFrom _ _ auth refl refl (unfold load_credentials in h),
      AuthFrom-load_credentials auth,
    )
