-- ===== src/Fat/Entries/Examples.antt =====
-- The name `a long name.txt`, with the alias `ALONG~1.TXT`.
use iaos.Prelude.{ℕ, ◌≡◌, refl, some, List, [], ◌∷◌, ◌++◌, map, arith, ok}
use iaos.Fat.Text.{upper}
use iaos.Fat.Common.{
  default, take_verified, parse_dir_sector, short_entry_if_matches, format_short_name,
}
use iaos.Fat.Entries.{
  to_short_name, build_lfn_entries, build_dir_entry, build_name_entries, generate_short_alias,
  alias_from, alias, is_valid_lfn_char,
}
use iaos.Fat.Entries.LongName.{AreChars, push_all, take_verified-build}
use iaos.Fat.Entries.ShortName.{Chosen, build_name_entries-Chosen}
use iaos.Fat.Entries.Written.{IsShort, listed, parse_dir_sector-build, short_entry_if_matches-build}

abbrev name : List ℕ
name = 97 ∷ 32 ∷ 108 ∷ 111 ∷ 110 ∷ 103 ∷ 32 ∷ 110 ∷ 97 ∷ 109 ∷ 101 ∷ 46 ∷ 116 ∷ 120 ∷ 116 ∷ []

abbrev short : List ℕ
short = 65 ∷ 76 ∷ 79 ∷ 78 ∷ 71 ∷ 126 ∷ 49 ∷ 32 ∷ 84 ∷ 88 ∷ 84 ∷ []

alias_run : generate_short_alias [] name ≡ ok short
unfolding generate_short_alias alias_from alias
alias_run = refl

name-AreChars : AreChars name
name-AreChars = (
  (omega arith, omega arith),
  (
    (omega arith, omega arith),
    (
      (omega arith, omega arith),
      (
        (omega arith, omega arith),
        (
          (omega arith, omega arith),
          (
            (omega arith, omega arith),
            (
              (omega arith, omega arith),
              (
                (omega arith, omega arith),
                (
                  (omega arith, omega arith),
                  (
                    (omega arith, omega arith),
                    (
                      (omega arith, omega arith),
                      (
                        (omega arith, omega arith),
                        (
                          (omega arith, omega arith),
                          ((omega arith, omega arith), ((omega arith, omega arith), tt)),
                        ),
                      ),
                    ),
                  ),
                ),
              ),
            ),
          ),
        ),
      ),
    ),
  ),
)

take_verified-build_example :
    ((take_verified (push_all default (build_lfn_entries name short)) short).0 ≡ some name)
    × ((take_verified (push_all default (build_lfn_entries name short)) short).1.chunks ≡ [])
take_verified-build_example = take_verified-build name short default name-AreChars (omega arith)

short-IsShort : IsShort short 32
short-IsShort = record {
  eleven = refl;
  used = omega arith;
  not_deleted = omega arith;
  not_long = omega arith;
  not_label = refl;
}

parse_dir_sector-build_example :
    (parse_dir_sector
      (build_lfn_entries name short ++ (build_dir_entry short 32 70000 1234 33000 21000 ∷ []))
      []
      default).0
    ≡ [] ++ (listed name 32 70000 1234 33000 21000 ∷ [])
parse_dir_sector-build_example =
    parse_dir_sector-build name short 32 70000 1234 33000 21000 short-IsShort (omega arith) []
      default name-AreChars (omega arith)

short_entry_if_matches-build_example :
    (short_entry_if_matches
      (build_dir_entry short 32 70000 1234 33000 21000)
      (push_all default (build_lfn_entries name short))
      (map upper name)).0
    ≡ some (listed name 32 70000 1234 33000 21000)
short_entry_if_matches-build_example =
    short_entry_if_matches-build name short 32 70000 1234 33000 21000 short-IsShort (omega arith)
      (map upper name) default name-AreChars (omega arith) refl

abbrev readme : List ℕ
readme = 114 ∷ 46 ∷ 109 ∷ 100 ∷ []

abbrev readme_short : List ℕ
readme_short = 82 ∷ 32 ∷ 32 ∷ 32 ∷ 32 ∷ 32 ∷ 32 ∷ 32 ∷ 77 ∷ 68 ∷ 32 ∷ []

build_run : build_name_entries [] name ≡ ok (short, build_lfn_entries name short)
unfolding build_name_entries to_short_name generate_short_alias alias_from alias is_valid_lfn_char
build_run = refl

build_name_entries-Chosen_example : Chosen [] name (short, build_lfn_entries name short)
build_name_entries-Chosen_example =
    build_name_entries-Chosen [] name (short, build_lfn_entries name short) build_run

-- A space is kept in a short name, and cuts the name when it is read.
space_run :
    (to_short_name (97 ∷ 32 ∷ 98 ∷ [])
      ≡ ok (65 ∷ 32 ∷ 66 ∷ 32 ∷ 32 ∷ 32 ∷ 32 ∷ 32 ∷ 32 ∷ 32 ∷ 32 ∷ []))
    × (format_short_name (65 ∷ 32 ∷ 66 ∷ 32 ∷ 32 ∷ 32 ∷ 32 ∷ 32 ∷ []) (32 ∷ 32 ∷ 32 ∷ []) ≡ 65 ∷ [])
unfolding to_short_name format_short_name
space_run = (refl, refl)
