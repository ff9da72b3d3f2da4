-- ===== src/Tests/Paging.antt =====
-- Four tables, the page tables of one address.

use umbra_os.Prelude.{ℕ, ◌+◌, ◌*◌, ◌%◌, ◌^◌, ◌<◌, ◌≡◌, refl, arith, ◌==◌, if◌then◌else◌}
use umbra_os.Memory.Vmm.{Tables, map, virt_to_phys}
use umbra_os.Prelude.Maps.{update}
use umbra_os.Memory.Vmm.Entry.{IsFlags}
use umbra_os.Memory.Vmm.Walk.{Leads, Tabled, virt_to_phys-map}

-- The first entries of the tables at 4096, 8192 and 12288 lead to the next one.
abbrev tables : Tables
tables = record {
  words = λ a.
      if a == 4096
      then 8192 + 7
      else if a == 8192
      then 12288 + 7
      else if a == 12288
      then 16384 + 7
      else 0;
  pmm = record { bitmap = record { bytes = λ i. 255; size = 1 }; last_page_idx = 0 };
}

-- The page at 300, whose entry is the 300th of the lowest table.
abbrev page : ℕ
page = 300 * 4096

three-IsFlags : IsFlags 3
three-IsFlags = record {
  low = 3;
  high = 0;
  word = refl;
  low_fits = omega arith;
  high_fits = omega arith;
  present = refl;
}

leads :
    (word table : ℕ)
    → table % 4096 ≡ 0
    → 0 < table
    → table < 2 ^ 52
    → word ≡ table + 7
    → Leads 0 word table
leads word table aligned pos fits e = record {
  flags = 7;
  is_flags = record {
    low = 7;
    high = 0;
    word = refl;
    low_fits = omega arith;
    high_fits = omega arith;
    present = refl;
  };
  is_page = (aligned, fits);
  joined = e;
  set = λ z. omega (arith, z, fits, pos);
}

tables-Tabled : Tabled 0 4096 page 40960 3 8192 12288 16384 tables
tables-Tabled = record {
  lead4 = leads 8199 8192 refl (omega arith) (omega arith) refl;
  lead3 = leads 12295 12288 refl (omega arith) (omega arith) refl;
  lead2 = leads 16391 16384 refl (omega arith) (omega arith) refl;
  unused = refl;
  word = omega arith;
  apart4 = λ e. omega (arith, e);
  apart3 = λ e. omega (arith, e);
  apart2 = λ e. omega (arith, e);
}

abbrev mapped_tables : Tables
mapped_tables = record tables { words = update tables.words (16384 + 2400) (40960 + 3) }

virt_to_phys-map_example :
    (map 0 4096 page 40960 3 tables ≡ mapped_tables)
    × (virt_to_phys 0 4096 page (map 0 4096 page 40960 3 tables) ≡ (40960, mapped_tables))
    × ((other : ℕ) → map 0 4096 page other 3 mapped_tables ≡ mapped_tables)
virt_to_phys-map_example =
    virt_to_phys-map 0 4096 page 40960 3 8192 12288 16384 tables tables-Tabled (refl, omega arith)
      three-IsFlags
