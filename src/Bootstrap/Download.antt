-- ===== src/Bootstrap/Download.antt =====
-- downloadGitHubRunner (cmd/bootstrap-service/main.go).
use hyperfleet_controller.Base.{text, ◌++◌, nat_eq, if◌then◌else◌, decimal}
use hyperfleet_controller.Base.{Text, errorf, Err, M, fail, check, deferring}
use hyperfleet_controller.Bootstrap.Config.{
  RunnerConfig, dir_permissions, install_path, build_download_url,
}
use hyperfleet_controller.Bootstrap.System.{
  mkdir_all, http_get, close_body, close_gzip, Trace, Response, Env, perform,
}
use hyperfleet_controller.Bootstrap.Archive.{extract}

module _ (env : Env) where
  -- From the test of the status code on: the body is closed by the caller.
  unfoldable pub read_response : Text → Response → M Trace Err
  unfolding extract
  read_response target response =
      if nat_eq response.status_code 200
      then check (text "failed to create gzip reader") (λ trace. (response.gzip_error, trace))
          (deferring (perform env close_gzip)
            (extract env target response.entries response.tar_error))
      else fail (errorf (text "failed to download runner: HTTP " ++ decimal response.status_code))

  unfoldable pub download_github_runner : RunnerConfig → M Trace Err
  unfolding read_response install_path build_download_url
  download_github_runner config =
      let target = install_path config in
      let url = build_download_url env.platform config in
      check (text "failed to create install directory")
        (perform env (mkdir_all target dir_permissions))
        (check (text "failed to create request") (λ trace. (env.new_request url, trace))
          (check (text "failed to download runner") (perform env (http_get url)) (λ trace.
            deferring (perform env close_body) (read_response target (env.response trace url))
              trace)))
