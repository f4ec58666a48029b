-- ===== src/Mmu/Entries.antt =====
-- The entries of page tables and directories in kernel/arch/x86/mmu.hpp, and the options of
-- kernel/mmu.hpp that they hold.
use uberos.Prelude.{ℕ, ◌+◌, ◌*◌, ◌/◌, ◌%◌, ◌^◌, Bool, true, false, ◌&&◌, not, if◌then◌else◌}

pub data Caching : Type 0 where
  uncached : Caching
  write_back : Caching
  write_through : Caching
  write_combining : Caching

pub record MapOptions : Type 0 where
  pub is_userspace : Bool
  pub is_writable : Bool
  pub is_executable : Bool
  pub caching : Caching

pub record TableEntry : Type 0 where
  pub is_present : Bool
  pub is_writable : Bool
  pub is_userspace_accessible : Bool
  pub pat_write_through_caching : Bool
  pub pat_disable_cache : Bool
  pub is_accessed : Bool
  pub is_dirty : Bool
  pub pat : Bool
  pub is_global : Bool
  pub address : ℕ

-- `target` is the union at the end of the entry: its upper 24 bits.
pub record DirectoryEntry : Type 0 where
  pub is_present : Bool
  pub is_writable : Bool
  pub is_userspace_accessible : Bool
  pub pat_write_through_caching : Bool
  pub pat_disable_cache : Bool
  pub is_accessed : Bool
  pub is_dirty : Bool
  pub is_4mb : Bool
  pub target : ℕ

abbrev pub writes_through : Caching → Bool
writes_through write_through = true
writes_through write_combining = true
writes_through uncached = false
writes_through write_back = false

abbrev pub disables_cache : Caching → Bool
disables_cache uncached = true
disables_cache write_combining = true
disables_cache write_through = false
disables_cache write_back = false

abbrev pub caching_of : Bool → Bool → Caching
caching_of true true = write_combining
caching_of true false = write_through
caching_of false true = uncached
caching_of false false = write_back

unfoldable pub get_address : TableEntry → ℕ
get_address e = e.address * 4096

unfoldable pub set_address : ℕ → TableEntry → TableEntry
set_address physical e = record e { address = physical / 4096 % 2 ^ 20 }

unfoldable pub with_options : MapOptions → TableEntry → TableEntry
with_options o e = record e {
  is_userspace_accessible = o.is_userspace;
  is_writable = o.is_writable;
  pat_write_through_caching = writes_through o.caching;
  pat_disable_cache = disables_cache o.caching;
}

unfoldable pub table_entry : TableEntry → ℕ → MapOptions → TableEntry
unfolding with_options set_address
table_entry e physical o =
    set_address physical (record (with_options o (record e { is_present = true })) {
      is_accessed = false;
      is_dirty = true;
      pat = false;
      is_global = false;
    })

unfoldable pub options_of : TableEntry → MapOptions
options_of e = record {
  is_userspace = e.is_userspace_accessible;
  is_writable = e.is_writable;
  is_executable = true;
  caching = caching_of e.pat_write_through_caching e.pat_disable_cache;
}

-- A table stands at bits 4 to 23 of the union, a page of 4 MB at bits 14 to 23 with its bits 32 to 39
-- at bits 5 to 12; the native address has 32 bits.
unfoldable pub get_table : DirectoryEntry → ℕ
get_table e =
    if e.is_4mb then e.target / 2 ^ 14 % 2 ^ 10 * 2 ^ 22 else e.target / 16 % 2 ^ 20 * 4096

unfoldable pub set_table : DirectoryEntry → ℕ → DirectoryEntry
set_table e physical = record e {
  target =
      if e.is_4mb
      then (e.target % 2 ^ 5 + e.target / 2 ^ 13 % 2 * 2 ^ 13) + physical / 2 ^ 22 % 2 ^ 10 * 2 ^ 14
      else e.target % 16 + physical / 4096 % 2 ^ 20 * 16;
}

-- The flags of an entry whose first table is made.
unfoldable pub first_directory_entry : DirectoryEntry → DirectoryEntry
first_directory_entry e = record {
  is_present = true;
  is_writable = false;
  is_userspace_accessible = false;
  pat_write_through_caching = false;
  pat_disable_cache = false;
  is_accessed = false;
  is_dirty = false;
  is_4mb = false;
  target = e.target;
}

-- The flags of the entry that comes next.
unfoldable pub prepared : DirectoryEntry → DirectoryEntry
prepared e = record {
  is_present = false;
  is_writable = false;
  is_userspace_accessible = false;
  pat_write_through_caching = false;
  pat_disable_cache = false;
  is_accessed = false;
  is_dirty = e.is_dirty;
  is_4mb = false;
  target = e.target;
}

-- A directory entry allows what one of its pages allows.
unfoldable pub widened : MapOptions → DirectoryEntry → DirectoryEntry
widened o e = record e {
  is_writable = if o.is_writable && not e.is_writable then true else e.is_writable;
  is_userspace_accessible =
      if o.is_userspace && not e.is_userspace_accessible then true else e.is_userspace_accessible;
}
