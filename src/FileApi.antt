-- ===== src/FileApi.antt =====
-- connclient/src/file_api.h and file_api.cpp in their branches for systems other than Windows.
pub mod Listing
pub mod Names
use Prim.Native.Nat.{bit_and, bit_or}
use defold_connclient.Prelude.{
  ℕ, zero, suc, ◌+◌, ◌-◌, ◌%◌, ◌^◌, Bool, true, false, not, ◌&&◌, ◌||◌, Option, none, some, List,
  [], ◌∷◌, ◌++◌, length, drop, leb, ◌==◌, if◌then◌else◌, ℤ, pos, negsuc,
}
use defold_connclient.Os.{Os, Fd}

-- O_NONBLOCK, and the requests FIONBIO and FIONREAD.
abbrev pub o_nonblock : ℕ
o_nonblock = 2048

abbrev pub fionbio : ℕ
fionbio = 21537

abbrev pub fionread : ℕ
fionread = 21531

module _ (os : Os) where
  -- fcntl_ex with F_GETFL and with F_SETFL
  unfoldable pub getfl_ex : Fd → os.State → ℕ × os.State
  getfl_ex fd s = os.getfl fd s

  unfoldable pub setfl_ex : Fd → ℕ → os.State → os.State
  setfl_ex fd arg s = os.setfl fd arg s

  unfoldable pub getfilenonblocking_ex : Fd → os.State → Bool × os.State
  getfilenonblocking_ex fd s =
      let (flags, s') = getfl_ex fd s in (not (bit_or flags o_nonblock == 0), s')

  unfoldable pub setfilenonblocking_ex : Fd → Bool → os.State → os.State
  setfilenonblocking_ex fd on s =
      let (flags, s') = getfl_ex fd s in
      setfl_ex fd (if on then bit_or flags o_nonblock else bit_and flags (2 ^ 32 - 1 - o_nonblock))
        s'

  unfoldable pub ioctl_ex : Fd → ℕ → ℕ → os.State → ℕ × os.State
  ioctl_ex fd request arg s = os.ioctl fd request arg s

  unfoldable pub setfilenonblocking_ex2 : Fd → Bool → os.State → os.State
  setfilenonblocking_ex2 fd on s = (ioctl_ex fd fionbio (if on then 1 else 0) s).1

  unfoldable pub availablefile_ex : Fd → os.State → ℕ × os.State
  availablefile_ex fd s = ioctl_ex fd fionread 0 s

-- The rest of the system calls, on the state of the system.
pub record Disk (State : Type 0) : Type 0 where
  pub open_file : List ℕ → ℕ → State → Fd × State
  pub open_mode : List ℕ → ℕ → ℕ → State → Fd × State
  pub mkdir : List ℕ → ℕ → State → ℤ × State
  -- the bytes that came, or `none` for -1
  pub read : Fd → ℕ → State → Option (List ℕ) × State
  pub write : Fd → List ℕ → State → ℤ × State
  pub close : Fd → State → State
  pub dup : Fd → State → Fd × State
  pub lseek : Fd → ℤ → ℕ → State → ℤ × State
  -- `none` for a null pointer
  pub opendir : List ℕ → State → Option ℕ × State
  -- the names that the calls of `readdir` give up to its null pointer
  pub readdir : ℕ → State → List (List ℕ) × State
  pub closedir : ℕ → State → State

-- The string `suffix` at the start of `name`, and somewhere in it, where `find` is not `npos`.
unfoldable pub starts_with : List ℕ → List ℕ → Bool
starts_with [] name = true
starts_with (c ∷ suffix) [] = false
starts_with (c ∷ suffix) (d ∷ name) = (c == d) && starts_with suffix name

unfoldable pub finds : List ℕ → List ℕ → Bool
finds suffix [] = starts_with suffix []
finds suffix (c ∷ name) = starts_with suffix (c ∷ name) || finds suffix name

abbrev pub is_visible : List ℕ → Bool
is_visible [] = true
is_visible (c ∷ name) = not (c == b'.')

-- The tests of an entry on its suffix.
unfoldable pub has_suffix : List ℕ → List ℕ → Bool
has_suffix suffix name =
    if leb (length name) (length suffix)
    then false
    else finds suffix (drop (length name - length suffix) name)

abbrev pub file_name : List ℕ → Bool → List ℕ → List ℕ
file_name folder_path rm_folder_path name =
    if rm_folder_path then name else folder_path ++ b'/' ∷ name

-- The loop over the entries: the names so far and, where it comes to its end, true.
unfoldable pub list_entries :
    (List ℕ → List ℕ) → Option (List ℕ) → List (List ℕ) → List (List ℕ) → List (List ℕ) × Bool
list_entries shown file_suffix [] vec = (vec, true)
list_entries shown none (name ∷ rest) vec =
    let later = list_entries shown none rest vec in if is_visible name then (vec, false) else later
list_entries shown (some suffix) (name ∷ rest) vec =
    let without = list_entries shown (some suffix) rest vec in
    let with_it = list_entries shown (some suffix) rest (vec ++ shown name ∷ []) in
    if not (is_visible name) then without else if has_suffix suffix name then with_it else without

module _ {State : Type 0} (disk : Disk State) where
  unfoldable pub open_ex : List ℕ → ℕ → State → Fd × State
  open_ex filename flags s = disk.open_file filename flags s

  unfoldable pub open_mode_ex : List ℕ → ℕ → ℕ → State → Fd × State
  open_mode_ex filename flags mode s = disk.open_mode filename flags mode s

  unfoldable pub mkdir_ex : List ℕ → ℕ → State → ℤ × State
  mkdir_ex dirname mode s = disk.mkdir dirname mode s

  unfoldable pub read_ex : Fd → ℕ → State → Option (List ℕ) × State
  read_ex fd len s = disk.read fd len s

  unfoldable pub write_ex : Fd → List ℕ → State → ℤ × State
  write_ex fd buf s = disk.write fd buf s

  unfoldable pub close_ex : Fd → State → State
  close_ex fd s = disk.close fd s

  unfoldable pub dup_ex : Fd → State → Fd × State
  dup_ex fd s = disk.dup fd s

  unfoldable pub lseek_ex : Fd → ℤ → ℕ → State → ℤ × State
  lseek_ex fd offset whence s = disk.lseek fd offset whence s

  unfoldable pub tell_ex : Fd → State → ℤ × State
  tell_ex fd s = (pos 0, s)

  -- The part of `list_files` after `opendir`. `readdir` on a null pointer has no defined result:
  -- `none`. Without a suffix it returns at the first visible entry and leaves the directory open.
  unfoldable pub list_dir :
      List ℕ
      → Option (List ℕ)
      → Bool
      → List (List ℕ)
      → Option ℕ
      → State
      → Option (List (List ℕ)) × State
  list_dir folder_path file_suffix rm_folder_path vec none s = (none, s)
  list_dir folder_path file_suffix rm_folder_path vec (some dir) s =
      let (names, s') = disk.readdir dir s in
      let (found, ended) =
        list_entries (file_name folder_path rm_folder_path) file_suffix names vec in
      (some found, if ended then disk.closedir dir s' else s')

  unfoldable pub list_files :
      List ℕ → Option (List ℕ) → Bool → List (List ℕ) → State → Option (List (List ℕ)) × State
  list_files folder_path file_suffix rm_folder_path vec s =
      let (dir, s') = disk.opendir folder_path s in
      list_dir folder_path file_suffix rm_folder_path vec dir s'
