-- ===== src/Physical.antt =====
-- The reads and writes of physical memory in kernel/memory.cpp, through a scratch page that is pointed
-- at one physical page after the other. What the scratch page shows is that page.
pub mod Read
pub mod Write
use uberos.Prelude.{
  ℕ, zero, suc, ◌+◌, ◌-◌, ◌*◌, ◌/◌, Option, none, some, Bool, true, false, ◌&&◌, leb, ltb,
  if◌then◌else◌, add32,
}
use uberos.Stdlib.Memory.{Bytes}

abbrev pub page_size : ℕ
page_size = 4096

abbrev pub least : ℕ → ℕ → ℕ
least a b = if ltb b a then b else a

-- `memcpy`, between memories that are apart.
abbrev pub copy_between : Bytes → ℕ → Bytes → ℕ → ℕ → Bytes
copy_between to d from s bytes a = if leb d a && ltb a (d + bytes) then from (s + (a - d)) else to a

abbrev pub first_page : ℕ → ℕ
first_page address = address / page_size * page_size

-- The loop of `read_physical` over the pages after the first, on fuel.
unfoldable pub read_pages : ℕ → Bytes → ℕ → ℕ → ℕ → ℕ → Bytes → Option Bytes
read_pages zero physical address size page offset buffer = none
read_pages (suc k) physical address size page offset buffer =
    let copied = copy_between buffer offset physical page (least page_size (size - offset)) in
    let rest =
      read_pages k physical address size (add32 page page_size) (add32 offset page_size) copied in
    if ltb page (add32 address size) then rest else some buffer

unfoldable pub read_physical : ℕ → Bytes → ℕ → ℕ → Bytes → Option Bytes
read_physical fuel physical address size buffer =
    let page = first_page address in
    let offset = address - page in
    let length = least size (page_size - offset) in
    read_pages fuel physical address size (add32 page page_size) length
      (copy_between buffer 0 physical (page + offset) length)

-- The loop of `write_physical` over the pages after the first, on fuel.
unfoldable pub write_pages : ℕ → Bytes → ℕ → ℕ → ℕ → ℕ → Bytes → Option Bytes
write_pages zero written address size page offset physical = none
write_pages (suc k) written address size page offset physical =
    let copied = copy_between physical page written offset (least page_size (size - offset)) in
    let rest =
      write_pages k written address size (add32 page page_size) (add32 offset page_size) copied in
    if ltb page (add32 address size) then rest else some physical

-- The first page is filled from the address up to its end, whatever the size.
unfoldable pub write_physical : ℕ → Bytes → ℕ → ℕ → Bytes → Option Bytes
write_physical fuel written address size physical =
    let page = first_page address in
    let offset = address - page in
    let length = page_size - offset in
    write_pages fuel written address size (add32 page page_size) length
      (copy_between physical (page + offset) written 0 length)
