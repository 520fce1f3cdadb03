-- ===== src/Bootstrap/Archive.antt =====
-- The loop over the archive in downloadGitHubRunner (cmd/bootstrap-service/main.go).
pub mod Emission
pub mod Safety
pub mod Balance
pub mod Complete
pub mod Limits
pub mod Success
pub mod Exact
use hyperfleet_controller.Base.{
  ℕ, ◌%◌, ◌^◌, Text, text, ◌==◌, has_prefix, Bool, true, false, not, ◌&&◌,
}
use hyperfleet_controller.Base.{none, some, List, [], ◌∷◌, ◌++◌, if◌then◌else◌}
use hyperfleet_controller.Base.{Error, errorf, wrap, Err, M, done, fail, check_or, check, ignoring}
use hyperfleet_controller.Path.{slash, clean, join, dir}
use hyperfleet_controller.Bootstrap.Config.{dir_permissions}
use hyperfleet_controller.Bootstrap.System.{
  Call, mkdir_all, open_file, copy, close_file, Trace, Typeflag, type_dir, type_reg, type_other,
  Header, Env, perform,
}

-- os.FileMode(mode), a uint32
abbrev pub file_mode : ℕ → ℕ
file_mode mode = mode % 2 ^ 32

-- os.O_CREATE|os.O_WRONLY|os.O_TRUNC on Linux
abbrev pub create_flags : ℕ
create_flags = 0x241

module _ (env : Env) where
  -- io.Copy and the two ways to close the file.
  unfoldable pub copy_and_close : Text → Text → M Trace Err
  copy_and_close target content =
      check_or
        (λ e.
          ignoring (perform env (close_file target))
            (fail (wrap (text "failed to write file " ++ target) e)))
        (perform env (copy target content))
        (check (text "failed to close file " ++ target) (perform env (close_file target)) done)

  -- case tar.TypeReg
  unfoldable pub extract_file : Text → Header → M Trace Err
  unfolding copy_and_close
  extract_file target header =
      check (text "failed to create parent directory for " ++ target)
        (perform env (mkdir_all (dir target) dir_permissions))
        (check (text "failed to create file " ++ target)
          (perform env (open_file target create_flags (file_mode header.mode)))
          (copy_and_close target header.content))

  -- switch header.Typeflag
  unfoldable pub extract_at : Text → Header → Typeflag → M Trace Err
  unfolding extract_file
  extract_at target header type_dir =
      check (text "failed to create directory " ++ target)
        (perform env (mkdir_all target (file_mode header.mode))) done
  extract_at target header type_reg = extract_file target header
  extract_at target header (type_other flag) = done

-- The security check: whether an entry is refused.
unfoldable pub is_refused : Text → Text → Bool
is_refused install_path name =
    not (name == text "./")
    && not (has_prefix (join install_path name) (clean install_path ++ slash ∷ []))

module _ (env : Env) where
  -- One round of the loop.
  unfoldable pub extract_entry : Text → Header → M Trace Err
  unfolding extract_at is_refused
  extract_entry install_path header =
      if is_refused install_path header.name
      then fail (errorf (text "invalid file path in archive: " ++ header.name))
      else extract_at env (join install_path header.name) header header.typeflag

  -- The loop, with the error of the tar reader behind the entries.
  unfoldable pub extract : Text → List Header → Err → M Trace Err
  unfolding extract_entry
  extract install_path [] none = done
  extract install_path [] (some e) = fail (wrap (text "failed to read tar entry") e)
  extract install_path (header ∷ rest) tar_error =
      check_or fail (extract_entry install_path header) (extract install_path rest tar_error)
