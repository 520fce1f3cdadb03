-- ===== src/Bootstrap/Disk/Unpack.antt =====
-- A download that succeeds leaves what unpacking its archive is to leave.
use hyperfleet_controller.Base.{
  Text, text, ◌==◌, ◌≡◌, refl, sym, ap, ◌∙◌, none, some, List, [], ◌∷◌, arith, Err, done, fail,
  deferring, check_or-none, check-none, check, ℕ, M, Bool-cases, inl, inr, nat_eq,
}
use hyperfleet_controller.Path.{join, dir}
use hyperfleet_controller.Bootstrap.Config.{
  RunnerConfig, dir_permissions, install_path, build_download_url,
}
use hyperfleet_controller.Bootstrap.System.{
  Call, mkdir_all, open_file, copy, close_file, Trace, Header, Typeflag, type_dir, type_reg,
  type_other, Env, perform, close_gzip, close_body, http_get,
}
use hyperfleet_controller.Bootstrap.Archive.{
  create_flags, file_mode, is_refused, extract_at, extract_entry, extract,
}
use mathlib.Core.Path.{fun_ext}
use hyperfleet_controller.Bootstrap.Download.{read_response, download_github_runner}
use hyperfleet_controller.Bootstrap.System.{Response}
use hyperfleet_controller.Bootstrap.Disk.{Disk, effect, contents, placed, unpacked}

-- The calls that put a regular file in place.
abbrev file_calls : Text → Header → Trace → Trace
file_calls target header t =
    (close_file target, none)
    ∷ (copy target header.content, none)
    ∷ (open_file target create_flags (file_mode header.mode), none)
    ∷ (mkdir_all (dir target) dir_permissions, none)
    ∷ t

module _ (disk : Disk) where
  file_calls-contents :
      (target : Text) (header : Header) (t : Trace) (p : Text)
      → contents disk (file_calls target header t) p
        ≡ placed target type_reg header.content (contents disk t) p
  unfolding contents effect placed
  file_calls-contents target header t p = elim (Bool-cases (target == p)) [
    | inl e ↦ rw e refl
    | inr e ↦ rw e refl
  ]

  module _ (env : Env) (base : Text) where
    extract_file-calls :
        (target : Text) (header : Header) (t : Trace)
        → (extract_at env target header type_reg t).0 ≡ none
        → (extract_at env target header type_reg t).1 ≡ file_calls target header t
    unfolding extract_at deferring perform
    extract_file-calls target header t h = ground arith

    extract_dir-calls :
        (target : Text) (header : Header) (t : Trace)
        → (extract_at env target header type_dir t).0 ≡ none
        → (extract_at env target header type_dir t).1
          ≡ (mkdir_all target (file_mode header.mode), none) ∷ t
    unfolding extract_at deferring perform
    extract_dir-calls target header t h = ground arith

    extract_at-contents :
        (target : Text) (header : Header) (flag : Typeflag) (t : Trace) (p : Text)
        → (extract_at env target header flag t).0 ≡ none
        → contents disk (extract_at env target header flag t).1 p
          ≡ placed target flag header.content (contents disk t) p
    extract_at-contents target header type_reg t p h =
        ap (λ u. contents disk u p) (extract_file-calls target header t h)
        ∙ file_calls-contents target header t p
    extract_at-contents target header type_dir t p h =
        ap (λ u. contents disk u p) (extract_dir-calls target header t h)
        ∙ (unfold contents in unfold effect in unfold placed in refl)
    extract_at-contents target header (type_other flag) t p h =
        unfold extract_at in unfold placed in unfold done in refl

    extract_entry-contents :
        (header : Header) (t : Trace) (p : Text)
        → (extract_entry env base header t).0 ≡ none
        → contents disk (extract_entry env base header t).1 p
          ≡ placed (join base header.name) header.typeflag header.content (contents disk t) p
    unfolding extract_entry
    extract_entry-contents header t p h = elim (Bool-cases (is_refused base header.name)) [
      | inl e ↦ unfold fail in cc
      | inr e ↦
          rw e (extract_at-contents (join base header.name) header header.typeflag t p (rw e at h))
    ]

    entry_same :
        (header : Header) (t : Trace)
        → (extract_entry env base header t).0 ≡ none
        → contents disk (extract_entry env base header t).1
          ≡ placed (join base header.name) header.typeflag header.content (contents disk t)
    entry_same header t h = fun_ext (λ p. extract_entry-contents header t p h)

    extract-contents :
        (entries : List Header) (tar_error : Err) (t : Trace)
        → (extract env base entries tar_error t).0 ≡ none
        → contents disk (extract env base entries tar_error t).1
          ≡ unpacked base entries (contents disk t)
    unfolding unpacked extract done
    extract-contents [] none t h = refl
    extract-contents [] (some e) t h = unfold fail in cc
    extract-contents (header ∷ rest) tar_error t h =
        let m = extract_entry env base header in
        let k = extract env base rest tar_error in
        let (first, same) = check_or-none m k t h in
        ap (λ o. contents disk o.1) same
        ∙ extract-contents rest tar_error (m t).1 (rw same at h)
        ∙ ap (unpacked base rest) (entry_same header t first)

    deferred_gzip :
        (m : M Trace Err) (t : Trace)
        → contents disk (deferring (perform env close_gzip) m t).1 ≡ contents disk (m t).1
    unfolding deferring perform contents effect
    deferred_gzip m t = refl

    deferred_body :
        (m : M Trace Err) (t : Trace)
        → contents disk (deferring (perform env close_body) m t).1 ≡ contents disk (m t).1
    unfolding deferring perform contents effect
    deferred_body m t = refl

    deferred-none :
        (cleanup m : M Trace Err) (t : Trace) → (deferring cleanup m t).0 ≡ none → (m t).0 ≡ none
    unfolding deferring
    deferred-none cleanup m t h = h

    read_response-contents :
        (response : Response) (t : Trace)
        → (read_response env base response t).0 ≡ none
        → contents disk (read_response env base response t).1
          ≡ unpacked base response.entries (contents disk t)
    unfolding read_response
    read_response-contents response t h = elim (Bool-cases (nat_eq response.status_code 200)) [
      | inl e ↦
          let body = extract env base response.entries response.tar_error in
          let m = deferring (perform env close_gzip) body in
          let opened : M Trace Err = λ trace. (response.gzip_error, trace) in
          let (none_opened, same) =
            check-none (text "failed to create gzip reader") opened m t (rw e at h) in
          let ended = sym (ap (λ o. o.0) same) ∙ rw e at h in
          rw e (
            ap (λ o. contents disk o.1) same
            ∙ deferred_gzip body t
            ∙ extract-contents response.entries response.tar_error t
                (deferred-none (perform env close_gzip) body t ended))
      | inr e ↦ unfold fail in cc
    ]

  module _ (env : Env) (config : RunnerConfig) where
    quiet_mkdir :
        (path : Text) (mode : ℕ) (t : Trace)
        → contents disk (perform env (mkdir_all path mode) t).1 ≡ contents disk t
    unfolding perform contents effect
    quiet_mkdir path mode t = refl

    quiet_get :
        (url : Text) (t : Trace) → contents disk (perform env (http_get url) t).1 ≡ contents disk t
    unfolding perform contents effect
    quiet_get url t = refl

    performed :
        (call : Call) (t : Trace)
        → (perform env call t).0 ≡ none
        → (perform env call t).1 ≡ (call, none) ∷ t
    unfolding perform
    performed call t h = ap (λ r. (call, r) ∷ t) h

    -- The calls when the answer arrives.
    abbrev pub requested : Trace → Trace
    requested t =
        (http_get (build_download_url env.platform config), none)
        ∷ (mkdir_all (install_path config) dir_permissions, none)
        ∷ t

    -- A download that returns nil leaves the files that unpacking the archive of the response is to
    -- leave at the installation path, entry by entry: each regular file replaces what is at its
    -- path, and nothing else changes.
    pub download_github_runner-contents :
        (t : Trace)
        → (download_github_runner env config t).0 ≡ none
        → contents disk (download_github_runner env config t).1
          ≡ unpacked
              (install_path config)
              (env.response (requested t) (build_download_url env.platform config)).entries
              (contents disk t)
    unfolding download_github_runner
    download_github_runner-contents t h =
        let target = install_path config in
        let url = build_download_url env.platform config in
        let request : M Trace Err = λ trace. (env.new_request url, trace) in
        let receive : M Trace Err = λ trace.
          deferring (perform env close_body) (read_response env target (env.response trace url))
            trace in
        let get = check (text "failed to download runner") (perform env (http_get url)) receive in
        let start = check (text "failed to create request") request get in
        let mkdir = perform env (mkdir_all target dir_permissions) in
        let (h1, s1) = check-none (text "failed to create install directory") mkdir start t h in
        let t1 = (mkdir t).1 in
        let r1 = sym (ap (λ o. o.0) s1) ∙ h in
        let (h2, s2) = check-none (text "failed to create request") request get t1 r1 in
        let r2 = sym (ap (λ o. o.0) s2) ∙ r1 in
        let (h3, s3) =
          check-none (text "failed to download runner") (perform env (http_get url)) receive t1
            r2 in
        let r3 = sym (ap (λ o. o.0) s3) ∙ r2 in
        let before = (perform env (http_get url) t1).1 in
        let body = read_response env target (env.response before url) in
        let arrived : before ≡ requested t =
          performed (http_get url) t1 h3
          ∙ ap (λ u. (http_get url, none) ∷ u)
              (performed (mkdir_all target dir_permissions) t h1) in
        ap (λ o. contents disk o.1) (s1 ∙ s2 ∙ s3)
        ∙ deferred_body env target body before
        ∙ read_response-contents env target (env.response before url) before
            (deferred-none env target (perform env close_body) body before r3)
        ∙ ap (λ u. unpacked target (env.response u url).entries (contents disk before)) arrived
        ∙ ap (unpacked target (env.response (requested t) url).entries)
            (quiet_get url t1 ∙ quiet_mkdir target dir_permissions t)
