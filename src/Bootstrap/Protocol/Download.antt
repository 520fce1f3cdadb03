-- ===== src/Bootstrap/Protocol/Download.antt =====
-- The download follows its protocol.
use hyperfleet_controller.Base.{
  Text, ◌≡◌, refl, ◌⊎◌, inl, inr, none, some, List, [], ◌∷◌, nat_eq, Err, fail, Leads, Leads-at,
  Leads-weaken, Leads-done, Leads-fail, Leads-pure, Leads-check_or, Leads-deferring, Leads-if,
  Expect, Always, Expect-check, Expect-check_or, Always-ignoring,
}
use hyperfleet_controller.Bootstrap.Config.{RunnerConfig, install_path, build_download_url}
use hyperfleet_controller.Bootstrap.System.{
  Env, perform, close_gzip, close_body, Header, Typeflag, type_dir, type_reg, type_other, Response,
}
use hyperfleet_controller.Bootstrap.Archive.{
  copy_and_close, extract_file, extract_at, extract_entry, extract, is_refused,
}
use hyperfleet_controller.Bootstrap.Download.{read_response, download_github_runner}
use hyperfleet_controller.Bootstrap.Protocol.{
  Phase, begun, prepared, receiving, broken, drained, downloaded, writing, written, unwritten,
  stopped, DownloadStep, prepare, not_prepared, respond, not_responded, make, not_made, create,
  not_created, fill, not_filled, close, not_closed, abandon, end_archive, end_broken, end_response,
  refuse_response,
}
use hyperfleet_controller.Bootstrap.Protocol.Steps.{Leads-perform, Leads-anyway}

-- Behind an entry or an archive: an error may come before any call.
abbrev InArchive : Err → Phase → Type 0
InArchive none q = q ≡ receiving
InArchive (some e) q = (q ≡ receiving) ⊎ (q ≡ broken)

InArchive-entry : (r : Err) (q : Phase) → Expect receiving broken r q → InArchive r q
InArchive-entry none q h = h
InArchive-entry (some e) q h = inr h

-- Where a download stops, by its result.
abbrev pub Downloaded : Err → Phase → Type 0
Downloaded none q = q ≡ downloaded
Downloaded (some e) q = (q ≡ stopped) ⊎ ((q ≡ prepared) ⊎ (q ≡ downloaded))

-- The response is read to its end, or refused before.
abbrev Read : Err → Phase → Type 0
Read none q = q ≡ drained
Read (some e) q = (q ≡ receiving) ⊎ (q ≡ drained)

module _ (env : Env) (config : RunnerConfig) where
  copy_and_close-Leads :
      (target content : Text)
      → Leads
          (DownloadStep config)
          (writing target)
          (copy_and_close env target content)
          (Expect receiving broken)
  unfolding copy_and_close
  copy_and_close-Leads target content =
      Expect-check_or (written target) (unwritten target) _ _ _
        (Leads-perform env _ (fill target content) (not_filled target content))
        (λ e. Always-ignoring broken _ _ (Leads-anyway env _ (abandon target)) (Leads-fail _ refl))
        (Expect-check receiving broken _ _ _
          (Leads-perform env _ (close target) (not_closed target)) (λ e. refl) (Leads-done refl))

  extract_at-Leads :
      (target : Text) (header : Header) (flag : Typeflag)
      → Leads
          (DownloadStep config)
          receiving
          (extract_at env target header flag)
          (Expect receiving broken)
  unfolding extract_at extract_file
  extract_at-Leads target header type_dir =
      Expect-check receiving broken _ _ _ (Leads-perform env _ (make _ _) (not_made _ _))
        (λ e. refl) (Leads-done refl)
  extract_at-Leads target header type_reg =
      Expect-check receiving broken _ _ _ (Leads-perform env _ (make _ _) (not_made _ _))
        (λ e. refl)
        (Expect-check (writing target) broken _ _ _
          (Leads-perform env _ (create target _) (not_created target _)) (λ e. refl)
          (copy_and_close-Leads target header.content))
  extract_at-Leads target header (type_other flag) = Leads-done refl

  module _ (base : Text) where
    extract_entry-Leads :
        (header : Header)
        → Leads (DownloadStep config) receiving (extract_entry env base header) InArchive
    unfolding extract_entry
    extract_entry-Leads header =
        Leads-if (is_refused base header.name) _ _ (λ _. Leads-fail _ (inl refl))
          (λ _. Leads-weaken InArchive-entry (extract_at-Leads _ header header.typeflag))

    extract-Leads :
        (entries : List Header) (tar_error : Err)
        → Leads (DownloadStep config) receiving (extract env base entries tar_error) InArchive
    unfolding extract
    extract-Leads [] none = Leads-done refl
    extract-Leads [] (some e) = Leads-fail _ (inl refl)
    extract-Leads (header ∷ rest) tar_error =
        Leads-check_or InArchive fail _ _ (extract_entry-Leads header) (λ e q h. Leads-fail e h)
          (λ q h. Leads-at h (extract-Leads rest tar_error))

    -- The reader of the archive is closed, whatever came before.
    gzip_closed :
        (q : Phase)
        → (q ≡ receiving) ⊎ (q ≡ broken)
        → Leads (DownloadStep config) q (perform env close_gzip) (Always drained)
    gzip_closed q (inl h) = Leads-at h (Leads-anyway env _ end_archive)
    gzip_closed q (inr h) = Leads-at h (Leads-anyway env _ end_broken)

    close_gzip-Leads :
        (r : Err) (q : Phase)
        → InArchive r q
        → Leads (DownloadStep config) q (perform env close_gzip) (λ _ s. Read r s)
    close_gzip-Leads none q h = gzip_closed q (inl h)
    close_gzip-Leads (some e) q h = Leads-weaken (λ _ s drained. inr drained) (gzip_closed q h)

    read_response-Leads :
        (response : Response)
        → Leads (DownloadStep config) receiving (read_response env base response) Read
    unfolding read_response
    read_response-Leads response =
        Leads-if (nat_eq response.status_code 200) _ _
          (λ _.
            Expect-check receiving receiving _ _ _ (pure_receiving response.gzip_error)
              (λ e. inl refl)
              (Leads-deferring InArchive _ _ (extract-Leads response.entries response.tar_error)
                close_gzip-Leads))
          (λ _. Leads-fail _ (inl refl))
      where
        pure_receiving :
            (r : Err)
            → Leads (DownloadStep config) receiving (λ t. (r, t)) (Expect receiving receiving)
        pure_receiving none = Leads-pure none refl
        pure_receiving (some e) = Leads-pure (some e) refl

    body_closed :
        (q : Phase)
        → (q ≡ receiving) ⊎ (q ≡ drained)
        → Leads (DownloadStep config) q (perform env close_body) (Always downloaded)
    body_closed q (inl h) = Leads-at h (Leads-anyway env _ refuse_response)
    body_closed q (inr h) = Leads-at h (Leads-anyway env _ end_response)

    close_body-Leads :
        (r : Err) (q : Phase)
        → Read r q
        → Leads (DownloadStep config) q (perform env close_body) (λ _ s. Downloaded r s)
    close_body-Leads none q h = body_closed q (inr h)
    close_body-Leads (some e) q h = Leads-weaken (λ _ s done. inr (inr done)) (body_closed q h)

  -- The download follows its protocol from the start, and where it returns nil, it has come to the
  -- end of it.
  pub download-Leads :
      Leads (DownloadStep config) begun (download_github_runner env config) Downloaded
  unfolding download_github_runner
  download-Leads =
      Expect-check prepared stopped _ _ _ (Leads-perform env _ prepare not_prepared) (λ e. inl refl)
        (Expect-check prepared prepared _ _ _ (requested (env.new_request _)) (λ e. inr (inl refl))
          (Expect-check receiving stopped _ _ _ (Leads-perform env _ (respond _) (not_responded _))
            (λ e. inl refl)
            (record {
              from = λ t.
                  (Leads-deferring Read _ _
                      (read_response-Leads _
                        (env.response t (build_download_url env.platform config)))
                      (close_body-Leads (install_path config))).from
                    t;
            })))
    where
      requested :
          (r : Err) → Leads (DownloadStep config) prepared (λ t. (r, t)) (Expect prepared prepared)
      requested none = Leads-pure none refl
      requested (some e) = Leads-pure (some e) refl
