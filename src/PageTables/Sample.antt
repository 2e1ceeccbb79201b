-- ===== src/PageTables/Sample.antt =====
-- A small tree of page tables for tests: an empty table at 8192 and four pages, with memory mapped from 4096 on.
use ga_os.Base.{ℕ, ◌*◌, ◌^◌, ◌<◌, refl, ◌==◌, if◌then◌else◌, arith, [], ◌∷◌}
use ga_os.PageTables.{Tables}
use ga_os.PageTables.Entries.{IsFrame, bit-low}
use ga_os.PageTables.Tree.{IsTree, not_present_zero}

abbrev pub level : ℕ → ℕ
level a = if a == 8192 then 4 else 0

abbrev pub empty_table : Tables
empty_table = record { entries = λ l i. 0; frames = 12288 ∷ 16384 ∷ 20480 ∷ 24576 ∷ [] }

IsFrame-page : (c : ℕ) → c < 2 ^ 40 → IsFrame (c * 2 ^ 12)
IsFrame-page c lt = record { aligned = λ i low. bit-low 12 c i low; small = omega arith }

pub empty_table-IsTree : IsTree 4096 level empty_table
empty_table-IsTree = record {
  below = λ l i k at h. absurd (not_present_zero 4096 h);
  empty = λ l i k at h. refl;
  unique = λ l i k l' i' k' at at' h. absurd (not_present_zero 4096 h);
  high = λ l k at. ground arith;
  fresh = (
    record { frame = IsFrame-page 2 (omega arith); above = omega arith; inside = omega arith },
    refl,
    (omega arith, (omega arith, (omega arith, tt))),
    (
      record { frame = IsFrame-page 3 (omega arith); above = omega arith; inside = omega arith },
      refl,
      (omega arith, (omega arith, tt)),
      (
        record { frame = IsFrame-page 4 (omega arith); above = omega arith; inside = omega arith },
        refl,
        (omega arith, tt),
        (
          record {
            frame = IsFrame-page 5 (omega arith);
            above = omega arith;
            inside = omega arith;
          },
          refl,
          tt,
          tt,
        ),
      ),
    ),
  );
}
