-- ===== src/Mmu/HighSteps.antt =====
-- Writing the next high page's entry and moving the counters, in kernel/arch/x86/mmu.cpp.
use uberos.Prelude.{
  ◌-◌, ℕ, ◌+◌, ◌<◌, ◌≡◌, ◌≢◌, ◌⊎◌, refl, sym, ap, ◌∙◌, some, true, false, Bool-cases, inl, inr,
  ◌==◌, ==_ne, ==_refl, ==→eq, ==_false, some_unique, arith, true-false, ==_true,
}
use uberos.Mmu.{Mmu, table_of, to_virtual, write_page, with_directory, advance_high, is_first_high}
use uberos.Mmu.Entries.{MapOptions, TableEntry, table_entry, prepared}
use uberos.Mmu.Tables.{Blank, entry_at}
use uberos.Mmu.Pages.{
  SameTables, SameTables-Tables, write_page-SameTables, entry_at-write_page, entry_at-write_page_ne,
  write_page_elsewhere, prepared-Blank, prepared-SameTables, entry_at-SameTables,
}
use uberos.Mmu.Regions.{
  high_position, Valid, Keeps, SameLow, SameLow-Between, SameLow-LowTable, SameLow-Bounds,
}
use uberos.Mmu.High.{HighReady}

pub record HighFinishes (m : Mmu) (i p : ℕ) (o : MapOptions) : Type 0 where
  pub after : Mmu
  pub finishes :
      advance_high (write_page m.next_high_directory_index i m.next_high_table_index p o m)
      ≡ some after
  pub valid : Valid after
  pub position : high_position after + 1 ≡ high_position m
  pub same_low : after.next_low_directory_index ≡ m.next_low_directory_index
  pub same_count : after.tables_count ≡ m.tables_count
  pub same_next : after.next_table_index ≡ m.next_table_index
  pub entry :
      entry_at after m.next_high_directory_index m.next_high_table_index
      ≡ some (table_entry (m.tables i m.next_high_table_index) p o)
  pub keeps : Keeps m after

module _ (m : Mmu) (i p : ℕ) (o : MapOptions) (ready : HighReady m i) where
  abbrev written : Mmu
  written = write_page m.next_high_directory_index i m.next_high_table_index p o m

  written-SameTables : SameTables m written
  written-SameTables =
      write_page-SameTables m m.next_high_directory_index i m.next_high_table_index p o

  written-Keeps : Keeps m written
  unfolding entry_at
  written-Keeps d t e present h =
      entry_at-write_page_ne m m.next_high_directory_index i m.next_high_table_index p o
        ready.tables ready.found d t
        (other (Bool-cases (d == m.next_high_directory_index))
          (Bool-cases (t == m.next_high_table_index)))
      ∙ h
    where
      here :
          d ≡ m.next_high_directory_index
          → t ≡ m.next_high_table_index
          → some (m.tables i m.next_high_table_index) ≡ some e
      here a b = rw ready.found at (rw (a, b) at h)

      free : some (m.tables i m.next_high_table_index) ≡ some e → e.is_present ≡ false
      free q =
          sym (ap (λ (x : TableEntry). x.is_present) (some_unique refl q))
          ∙ ready.free m.next_high_table_index (omega arith)

      other :
          ((d == m.next_high_directory_index) ≡ true) ⊎ ((d == m.next_high_directory_index) ≡ false)
          → ((t == m.next_high_table_index) ≡ true) ⊎ ((t == m.next_high_table_index) ≡ false)
          → (d ≢ m.next_high_directory_index) ⊎ (t ≢ m.next_high_table_index)
      other (inr a) b = inl (==_false d m.next_high_directory_index a)
      other (inl a) (inr b) = inr (==_false t m.next_high_table_index b)
      other (inl a) (inl b) = absurd (
          true-false present (
            free
              (here (==→eq d m.next_high_directory_index a) (==→eq t m.next_high_table_index b))))

  other_table : (j : ℕ) → table_of m m.next_low_directory_index ≡ some j → j ≢ i
  other_table j f e = omega (
    arith,
    ready.bounds.apart,
    ready.tables.apart m.next_high_directory_index m.next_low_directory_index i ready.found
        (f ∙ ap some e),
  )

  written-SameLow : SameLow m written
  unfolding write_page
  written-SameLow = record {
    low_directory = refl;
    low_page = refl;
    high_backward = omega arith;
    other_entries = λ d h b. rw (==_ne d m.next_high_directory_index (omega arith)) b;
    low_table = λ j f. (
      written-SameTables.same_table_of m.next_low_directory_index ∙ f,
      λ t.
          write_page_elsewhere m m.next_high_directory_index i m.next_high_table_index p o j t
            (inl (other_table j f)),
    );
  }

  abbrev next_page : Mmu
  next_page = record written { next_high_table_index = m.next_high_table_index - 1 }

  abbrev next_directory : Mmu
  next_directory =
      record (with_directory written (m.next_high_directory_index - 1)
        (prepared (written.directory (m.next_high_directory_index - 1)))) {
          next_high_table_index = 1023;
          next_high_directory_index = m.next_high_directory_index - 1;
        }

  moved-SameTables : SameTables written next_page
  unfolding table_of to_virtual
  moved-SameTables = record {
    same_physical = refl;
    same_count = refl;
    same_next = refl;
    same_table_of = λ d. refl;
  }

  next_page-SameTables : SameTables m next_page
  unfolding table_of to_virtual
  next_page-SameTables = record {
    same_physical = written-SameTables.same_physical;
    same_count = written-SameTables.same_count;
    same_next = written-SameTables.same_next;
    same_table_of = λ d. written-SameTables.same_table_of d;
  }

  next_page-SameLow : SameLow m next_page
  unfolding write_page
  next_page-SameLow = record {
    low_directory = refl;
    low_page = refl;
    high_backward = omega arith;
    other_entries = λ d h b. written-SameLow.other_entries d h b;
    low_table = λ j f. (
      next_page-SameTables.same_table_of m.next_low_directory_index ∙ f,
      (written-SameLow.low_table j f).1,
    );
  }

  still_free : (t : ℕ) → t < m.next_high_table_index → (written.tables i t).is_present ≡ false
  still_free t a =
      rw
        (write_page_elsewhere m m.next_high_directory_index i m.next_high_table_index p o i t
          (inr (omega arith)))
        (ready.free t (omega arith))

  not_first : m.next_high_table_index ≢ 0 → is_first_high next_page ≡ false
  unfolding is_first_high write_page
  not_first h = ground (arith, ready.bounds.high_page, ready.bounds.skipped)

  next_page-Valid : m.next_high_table_index ≢ 0 → Valid next_page
  unfolding write_page
  next_page-Valid h = record {
    tables = SameTables-Tables next_page-SameTables ready.tables;
    bounds =
        SameLow-Bounds next_page-SameLow ready.bounds (omega (arith, ready.bounds.high_page))
          ready.bounds.apart (λ e. omega (arith, ready.bounds.high_page, h));
    between = SameLow-Between next_page-SameLow ready.between;
    high_table = inr (
      i,
      not_first h,
      next_page-SameTables.same_table_of m.next_high_directory_index ∙ ready.found,
      λ t k. still_free t (omega (arith, h, k)),
    );
    low_table = SameLow-LowTable next_page-SameLow ready.bounds ready.low_table;
  }

  at_next_page : (d t : ℕ) → entry_at next_page d t ≡ entry_at written d t
  at_next_page = entry_at-SameTables {m = written} {m' = next_page} moved-SameTables (λ j t. refl)

  written_entry :
      entry_at written m.next_high_directory_index m.next_high_table_index
      ≡ some (table_entry (m.tables i m.next_high_table_index) p o)
  written_entry =
      entry_at-write_page m m.next_high_directory_index i m.next_high_table_index p o ready.found

  finish_page : m.next_high_table_index ≢ 0 → HighFinishes m i p o
  unfolding write_page advance_high
  finish_page h = record {
    after = next_page;
    finishes = rw (==_ne m.next_high_table_index 0 h) refl;
    valid = next_page-Valid h;
    position = omega arith;
    same_low = refl;
    same_count = refl;
    same_next = refl;
    entry = at_next_page m.next_high_directory_index m.next_high_table_index ∙ written_entry;
    keeps = λ d t e q k. at_next_page d t ∙ written-Keeps d t e q k;
  }

  module _ (last : m.next_high_table_index ≡ 0)
      (room : m.next_low_directory_index + 1 < m.next_high_directory_index) where
    next-Blank : Blank (written.directory (m.next_high_directory_index - 1))
    next-Blank =
        written-SameLow.other_entries (m.next_high_directory_index - 1) (omega (arith, room)) (
          ready.between (m.next_high_directory_index - 1) (omega (arith, room))
            (omega (arith, room)))

    next_directory-SameTables : SameTables written next_directory
    unfolding table_of to_virtual
    next_directory-SameTables = record {
      same_physical = refl;
      same_count = refl;
      same_next = refl;
      same_table_of =
          (prepared-SameTables written (m.next_high_directory_index - 1) next-Blank).same_table_of;
    }

    entries :
        (d : ℕ)
        → Blank (written.directory d)
        → ((d == m.next_high_directory_index - 1) ≡ true)
          ⊎ ((d == m.next_high_directory_index - 1) ≡ false)
        → Blank (next_directory.directory d)
    entries d b (inl e) = rw e (prepared-Blank written (m.next_high_directory_index - 1) next-Blank)
    entries d b (inr e) = rw e b

    next_directory-SameLow : SameLow m next_directory
    unfolding write_page
    next_directory-SameLow = record {
      low_directory = refl;
      low_page = refl;
      high_backward = omega arith;
      other_entries = λ d h b.
          entries d (written-SameLow.other_entries d h b)
            (Bool-cases (d == m.next_high_directory_index - 1));
      low_table = λ j f. (
        next_directory-SameTables.same_table_of m.next_low_directory_index
            ∙ (written-SameLow.low_table j f).0,
        (written-SameLow.low_table j f).1,
      );
    }

    first_again : is_first_high next_directory ≡ true
    unfolding is_first_high
    first_again = ground arith

    next_directory-Valid : Valid next_directory
    unfolding write_page
    next_directory-Valid = record {
      tables =
          SameTables-Tables next_directory-SameTables
            (SameTables-Tables written-SameTables ready.tables);
      bounds =
          SameLow-Bounds next_directory-SameLow ready.bounds (omega arith) (omega (arith, room))
            (λ e. omega (arith, e, ready.bounds.high_directory, room));
      between = SameLow-Between next_directory-SameLow ready.between;
      high_table = inl (
        first_again,
        entries (m.next_high_directory_index - 1) next-Blank
            (inl (==_refl (m.next_high_directory_index - 1))),
      );
      low_table = SameLow-LowTable next_directory-SameLow ready.bounds ready.low_table;
    }

    at_next_directory : (d t : ℕ) → entry_at next_directory d t ≡ entry_at written d t
    at_next_directory =
        entry_at-SameTables {m = written} {m' = next_directory} next_directory-SameTables
          (λ j t. refl)

    finish_directory : HighFinishes m i p o
    unfolding write_page advance_high
    finish_directory = record {
      after = next_directory;
      finishes =
          rw (==_true m.next_high_table_index 0 last)
            (rw (==_ne m.next_high_directory_index 0 (omega (arith, room))) refl);
      valid = next_directory-Valid;
      position = omega arith;
      same_low = refl;
      same_count = refl;
      same_next = refl;
      entry = at_next_directory m.next_high_directory_index m.next_high_table_index ∙ written_entry;
      keeps = λ d t e q k. at_next_directory d t ∙ written-Keeps d t e q k;
    }

  pub finish_high :
      (m.next_high_table_index ≡ 0 → m.next_low_directory_index + 1 < m.next_high_directory_index)
      → HighFinishes m i p o
  finish_high room = elim (Bool-cases (m.next_high_table_index == 0)) [
    | inl e ↦
        finish_directory (==→eq m.next_high_table_index 0 e)
          (room (==→eq m.next_high_table_index 0 e))
    | inr e ↦ finish_page (==_false m.next_high_table_index 0 e)
  ]
