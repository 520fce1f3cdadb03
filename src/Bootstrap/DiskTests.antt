-- ===== src/Bootstrap/DiskTests.antt =====
-- The theorems on the files of the machine at concrete inputs.
use hyperfleet_controller.Base.{
  Text, text, ◌==◌, ◌++◌, ◌≡◌, refl, ap, false, true, none, [], ◌∷◌, has_prefix, deferring, inl,
  inr, if◌then◌else◌,
}
use hyperfleet_controller.Path.{slash, clean, join, is_rooted}
use hyperfleet_controller.Path.Split.{join_slash}
use hyperfleet_controller.Bootstrap.System.{perform}
use hyperfleet_controller.Bootstrap.Config.{install_path}
use hyperfleet_controller.Bootstrap.Samples.{
  base, config, folder, script, climbing, healthy, broken,
}
use hyperfleet_controller.Bootstrap.Archive.{extract}
use hyperfleet_controller.Bootstrap.Archive.Safety.{Inside}
use hyperfleet_controller.Bootstrap.Download.{download_github_runner}
use hyperfleet_controller.Bootstrap.Disk.{Disk, missing, file, contents, unpacked, placed}
use hyperfleet_controller.Bootstrap.Disk.Unpack.{download_github_runner-contents}
use hyperfleet_controller.Bootstrap.Disk.Frame.{extract-outside}

-- A disk with one file, outside the installation path.
abbrev passwd : Text
passwd = text "/etc/passwd"

abbrev disk : Disk
disk p = if p == passwd then file (text "root") else missing

passwd-prefix : has_prefix passwd (text "/opt") ≡ false
unfolding text has_prefix
passwd-prefix = refl

base-prefix : (rest : Text) → has_prefix (clean base ++ rest) (text "/opt") ≡ true
unfolding text has_prefix clean ◌==◌
base-prefix rest = refl

clean-prefix : has_prefix (clean base) (text "/opt") ≡ true
unfolding text has_prefix clean ◌==◌
clean-prefix = refl

passwd_outside : ¬ Inside (clean base) passwd
passwd_outside (inl e) =
    absurd (cc (ap (λ p. has_prefix p (text "/opt")) e, passwd-prefix, clean-prefix))
passwd_outside (inr w) = absurd (
    cc (
      ap (λ p. has_prefix p (text "/opt")) w.path,
      passwd-prefix,
      base-prefix (slash ∷ join_slash w.elements),
    ))

base-is_rooted : is_rooted base ≡ true
unfolding is_rooted text
base-is_rooted = refl

extract-outside_example :
    contents disk (extract broken base (folder ∷ script ∷ climbing ∷ []) none []).1 passwd
    ≡ contents disk [] passwd
extract-outside_example =
    extract-outside base passwd base-is_rooted passwd_outside broken
      (folder ∷ script ∷ climbing ∷ []) none disk []

downloaded : (download_github_runner healthy config []).0 ≡ none
unfolding download_github_runner deferring perform extract join text ◌==◌ has_prefix
downloaded = refl

download_github_runner-contents_example :
    contents disk (download_github_runner healthy config []).1
    ≡ unpacked (install_path config) (folder ∷ script ∷ []) (contents disk [])
download_github_runner-contents_example =
    download_github_runner-contents disk healthy config [] downloaded

-- The script is where it is to be.
script_is_unpacked :
    unpacked (text "/opt/runner") (folder ∷ script ∷ []) disk (text "/opt/runner/run.sh")
    ≡ file (text "exec")
unfolding unpacked placed join text ◌==◌
script_is_unpacked = refl
