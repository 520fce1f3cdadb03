-- ===== src/Bootstrap/Disk.antt =====
-- The files of the machine, as the calls of the bootstrap service leave them: an abstract view of
-- the trace, by path. The paths of the program are cleaned, and it makes no links.
pub mod Unpack
pub mod Frame
use hyperfleet_controller.Base.{
  ℕ, ◌/◌, ◌%◌, Text, text, ◌==◌, nat_eq, has_prefix, Bool, ◌||◌, ◌&&◌, none, some, List, [], ◌∷◌,
  ◌++◌, if◌then◌else◌,
}
use hyperfleet_controller.Path.{slash, join}
use hyperfleet_controller.Bootstrap.System.{
  mkdir_all, remove_all, open_file, write_string, copy, close_file, http_get, close_body,
  close_gzip, sync, run, reboot, sleep, Event, Trace, Header, Typeflag, type_dir, type_reg,
  type_other,
}

-- What is known of the regular file at a path.
pub data Content : Type 0 where
  missing unknown : Content
  file : Text → Content

abbrev pub Disk : Type 0
Disk = Text → Content

abbrev pub appended : Content → Text → Content
appended (file s) new = file (s ++ new)
appended missing new = unknown
appended unknown new = unknown

-- Whether a path is removed with `root`.
abbrev pub is_at_or_below : Text → Text → Bool
is_at_or_below root path = root == path || has_prefix path (root ++ slash ∷ [])

-- os.O_TRUNC on Linux is 0x200.
abbrev pub truncates : ℕ → Bool
truncates flags = nat_eq (flags / 0x200 % 2) 1

-- A failed write may have written a part, a failed removal may have removed a part, and a command
-- may change any file. A file that is opened with O_TRUNC is truncated.
unfoldable pub effect : Event → Disk → Disk
effect (open_file path flags mode, none) disk p =
    if truncates flags && path == p then file [] else disk p
effect (open_file path flags mode, some e) disk p = disk p
effect (copy path content, none) disk p = if path == p then appended (disk p) content else disk p
effect (copy path content, some e) disk p = if path == p then unknown else disk p
effect (write_string path content, none) disk p =
    if path == p then appended (disk p) content else disk p
effect (write_string path content, some e) disk p = if path == p then unknown else disk p
effect (remove_all path, none) disk p = if is_at_or_below path p then missing else disk p
effect (remove_all path, some e) disk p = if is_at_or_below path p then unknown else disk p
effect (run command, r) disk p = unknown
effect (mkdir_all path mode, r) disk p = disk p
effect (close_file path, r) disk p = disk p
effect (http_get url, r) disk p = disk p
effect (close_body, r) disk p = disk p
effect (close_gzip, r) disk p = disk p
effect (sync, r) disk p = disk p
effect (reboot command, r) disk p = disk p
effect (sleep seconds, r) disk p = disk p

-- The disk after the calls of a trace, from the disk before them.
unfoldable pub contents : Disk → Trace → Disk
contents disk [] = disk
contents disk (e ∷ t) = effect e (contents disk t)

-- What unpacking an archive is to do, entry by entry: a regular file replaces what is at its path,
-- and nothing else changes.
unfoldable pub placed : Text → Typeflag → Text → Disk → Disk
placed target type_reg content disk p = if target == p then file content else disk p
placed target type_dir content disk p = disk p
placed target (type_other flag) content disk p = disk p

unfoldable pub unpacked : Text → List Header → Disk → Disk
unpacked base [] disk = disk
unpacked base (header ∷ rest) disk =
    unpacked base rest (placed (join base header.name) header.typeflag header.content disk)
