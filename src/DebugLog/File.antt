-- ===== src/DebugLog/File.antt =====
-- The file of the log and its backup: `WriteAll`, `Seek`, `Rotate` and `Append` of
-- windows/runner/debug_log.cpp. The outcomes of the calls of Windows are the records `RotateIo` and
-- `AppendIo`; a file is the list of its bytes.
use ligament_apps.Common.{
  ℕ, zero, suc, ◌-◌, ◌⊎◌, inl, inr, Bool, true, false, ◌&&◌, ◌||◌, Option, none, some, List, [],
  ◌∷◌, ◌++◌, ltb, ◌==◌, if◌then◌else◌, not, length, take, drop, empty,
}
use ligament_apps.Common.Text.{Text}
use ligament_apps.DebugLog.Access.{
  SecurityUse, Object, WellKnown, error_success, Repair, check_handle, win32_failure,
  error_invalid_acl,
}

-- `kMaxBytes`.
abbrev pub max_bytes : ℕ
max_bytes = 2097152

-- The status of a call by the code of `GetLastError` where it fails.
unfoldable pub call_status : Option ℕ → ℕ
unfolding win32_failure
call_status none = error_success
call_status (some error) = win32_failure error

abbrev pub error_write_fault : ℕ
error_write_fault = 29

abbrev pub error_read_fault : ℕ
error_read_fault = 30

abbrev pub error_path_not_found : ℕ
error_path_not_found = 3

abbrev pub error_invalid_data : ℕ
error_invalid_data = 13

abbrev pub error_already_exists : ℕ
error_already_exists = 183

-- What a call of `ReadFile` or `WriteFile` leaves: an error, or the number of bytes.
abbrev pub Moved : Type 0
Moved = ℕ ⊎ ℕ

-- The loop of `WriteAll`, by the outcomes of its calls of `WriteFile`, at the end of a file. Each
-- round takes a byte at least, so that the length of the bytes is fuel enough. The status, and the
-- file as it is left.
unfoldable pub write_from : (ℕ → Moved) → ℕ → ℕ → Text → Text → ℕ × Text
unfolding win32_failure
write_from writes zero call bytes file = (error_success, file)
write_from writes (suc fuel) call bytes file = elim bytes [
  | [] ↦ (error_success, file)
  | c ∷ s ↦ elim (writes call) [
    | inl error ↦ (win32_failure error, file)
    | inr zero ↦ (error_write_fault, file)
    | inr (suc n) ↦
        write_from writes fuel (suc call) (drop (suc n) (c ∷ s)) (file ++ take (suc n) (c ∷ s))
  ]
]

unfoldable pub write_all : (ℕ → Moved) → Text → Text → ℕ × Text
unfolding write_from
write_all writes bytes file = write_from writes (length bytes) 0 bytes file

-- The outcomes of the calls of `Rotate`, in order; `reads` and `writes` by the number of the chunk.
pub record RotateIo : Type 0 where
  pub backup : ℕ ⊎ Object
  pub seek_backup : Option ℕ
  pub truncate_backup : Option ℕ
  pub seek_current : Option ℕ
  pub reads : ℕ → Moved
  pub writes : ℕ → ℕ → Moved
  pub flush_backup : Option ℕ
  pub seek_start : Option ℕ
  pub truncate_current : Option ℕ

pub record Files : Type 0 where
  pub current : Text
  pub backup : Text

abbrev pub min : ℕ → ℕ → ℕ
min a b = if ltb a b then a else b

-- The loop of `Rotate` that copies `remaining` bytes of `source`, the current file from where it is
-- read, to the backup in chunks of at most 16 KiB. `ReadFile` reads a byte at least where it succeeds
-- and at most what it is asked for.
unfoldable pub copy_from : RotateIo → ℕ → ℕ → ℕ → Text → Text → ℕ × Text
unfolding write_all win32_failure
copy_from io zero chunk remaining source backup = (error_success, backup)
copy_from io (suc fuel) chunk remaining source backup = elim (remaining == 0) [
  | true ↦ (error_success, backup)
  | false ↦ elim (io.reads chunk) [
    | inl error ↦ (win32_failure error, backup)
    | inr zero ↦ (error_read_fault, backup)
    | inr (suc n) ↦
        let count = min (suc n) (min remaining 16384) in
        let (status, written) = write_all (io.writes chunk) (take count source) backup in
        elim (status == error_success) [
          | false ↦ (status, written)
          | true ↦ copy_from io fuel (suc chunk) (remaining - count) (drop count source) written
        ]
  ]
]

-- Opening and then checking.
unfoldable pub opened_status : WellKnown → Bool → SecurityUse → ℕ ⊎ Object → Option Repair → ℕ
unfolding check_handle win32_failure
opened_status well_known worker purpose (inl error) repair = win32_failure error
opened_status well_known worker purpose (inr o) repair =
    check_handle well_known worker purpose o repair

-- Calls in order, each with its status and the files at that point: the first failure is returned with
-- the files as they then are. Behind the last call stands what is done without one.
unfoldable pub run_calls : List (ℕ × Files) → ℕ × Files → ℕ × Files
run_calls [] last = last
run_calls ((status, f) ∷ calls) last =
    let rest = run_calls calls last in if status == error_success then rest else (status, f)

-- The copy of the current file's end.
unfoldable pub copy_end : RotateIo → Text → ℕ × Text
unfolding copy_from
copy_end io s =
    copy_from io (min (length s) max_bytes) 0 (min (length s) max_bytes)
      (drop (length s - max_bytes) s) []

-- The calls of `Rotate`, with the backup's object checked as a file of the log.
abbrev pub rotate_calls : WellKnown → Bool → RotateIo → Files → List (ℕ × Files)
rotate_calls well_known worker io f =
    (opened_status well_known worker SecurityUse.log_file io.backup none, f)
    ∷ (call_status io.seek_backup, f)
    ∷ (call_status io.truncate_backup, f)
    ∷ (call_status io.seek_current, record f { backup = [] })
    ∷ ((copy_end io f.current).0, record f { backup = (copy_end io f.current).1 })
    ∷ (call_status io.flush_backup, record f { backup = (copy_end io f.current).1 })
    ∷ (call_status io.seek_start, record f { backup = (copy_end io f.current).1 })
    ∷ (call_status io.truncate_current, record f { backup = (copy_end io f.current).1 })
    ∷ []

-- `Rotate`.
unfoldable pub rotate : WellKnown → Bool → RotateIo → Files → ℕ × Files
unfolding copy_end opened_status call_status run_calls
rotate well_known worker io f =
    run_calls (rotate_calls well_known worker io f)
      (error_success, record { current = []; backup = (copy_end io f.current).1 })

-- The outcomes of the calls of `Append`, in order.
pub record AppendIo : Type 0 where
  pub has_paths : Bool
  pub convert_descriptor : Option ℕ
  pub has_dacl : Bool
  pub create_app : Option ℕ
  pub app : ℕ ⊎ Object
  pub create_directory : Option ℕ
  pub directory : ℕ ⊎ Object
  pub repair : Repair
  pub current : ℕ ⊎ Object
  pub get_size : Option ℕ
  pub rotate_io : RotateIo
  pub seek_end : Option ℕ
  pub writes : ℕ → Moved
  pub flush : Option ℕ

-- `CreateDirectoryW`, which a directory that is already there does not fail.
abbrev created_status : Option ℕ → ℕ
created_status none = error_success
created_status (some error) =
    if error == error_already_exists then error_success else win32_failure error

abbrev first_failure : List ℕ → ℕ
first_failure [] = error_success
first_failure (status ∷ rest) = if status == error_success then first_failure rest else status

-- `Append` up to the check of the current file.
unfoldable pub open_status : WellKnown → Bool → AppendIo → ℕ
unfolding opened_status call_status
open_status well_known worker io = first_failure (
    (if io.has_paths then error_success else error_path_not_found)
    ∷ (if worker then call_status io.convert_descriptor else error_success)
    ∷ (if worker && not io.has_dacl then error_invalid_acl else error_success)
    ∷ created_status io.create_app
    ∷ opened_status well_known worker SecurityUse.parent io.app none
    ∷ created_status io.create_directory
    ∷ opened_status well_known worker SecurityUse.log_directory io.directory (some io.repair)
    ∷ opened_status well_known worker SecurityUse.log_file io.current none
    ∷ [])

-- `Append` behind the choice between `Rotate` and `Seek`, with the status and the files that this
-- leaves: the line is written at the end of the current one.
unfoldable pub write_line : AppendIo → Text → ℕ × Files → ℕ × Files
unfolding write_all call_status run_calls
write_line io line (placed, f) =
    let (status, current) = write_all io.writes line f.current in
    let written : Files = record f { current = current } in
    run_calls ((placed, f) ∷ (status, written) ∷ []) (call_status io.flush, written)

abbrev pub append_calls : WellKnown → Bool → AppendIo → Text → Files → List (ℕ × Files)
append_calls well_known worker io line f =
    (open_status well_known worker io, f)
    ∷ (if empty line || ltb max_bytes (length line) then error_invalid_data else error_success, f)
    ∷ (call_status io.get_size, f)
    ∷ []

unfoldable pub append : WellKnown → Bool → AppendIo → Text → Files → ℕ × Files
unfolding open_status rotate write_line call_status run_calls
append well_known worker io line f = run_calls (append_calls well_known worker io line f) (
    write_line io line (
      if ltb (max_bytes - length line) (length f.current)
      then rotate well_known worker io.rotate_io f
      else (call_status io.seek_end, f)))
