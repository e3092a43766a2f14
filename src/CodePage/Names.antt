-- ===== src/CodePage/Names.antt =====
-- tn5250/codepage/codepage.cpp: the names of the code pages, and the list of them.
use protocol_tn.Base.{ℕ, ◌+◌, ◌/◌, ◌%◌, List, [], ◌∷◌, Bytes, take, ◌≡◌, refl}
use protocol_tn.Utils.Text.Lines.{codes}
use protocol_tn.CodePage.{
  PageId, number, cp037, cp273, cp277, cp278, cp280, cp284, cp285, cp297, cp500, cp870, cp420,
  cp424, cp838,
}

-- The last return of the method is for no enumerator.
unfoldable pub codepage_name : PageId → Bytes
codepage_name cp037 = codes "037 - US/Canada"
codepage_name cp273 = codes "273 - Germany/Austria"
codepage_name cp277 = codes "277 - Denmark/Norway"
codepage_name cp278 = codes "278 - Finland/Sweden"
codepage_name cp280 = codes "280 - Italy"
codepage_name cp284 = codes "284 - Spain/Latin America"
codepage_name cp285 = codes "285 - UK"
codepage_name cp297 = codes "297 - France"
codepage_name cp500 = codes "500 - International"
codepage_name cp870 = codes "870 - Eastern Europe (Latin-2)"
codepage_name cp420 = codes "420 - Arabic"
codepage_name cp424 = codes "424 - Hebrew"
codepage_name cp838 = codes "838 - Thai"

unfoldable pub supported_code_pages : List PageId
supported_code_pages =
    cp037 ∷ cp273 ∷ cp277 ∷ cp278 ∷ cp280 ∷ cp284 ∷ cp285 ∷ cp297 ∷ cp500 ∷ cp870 ∷ cp420 ∷ cp424
    ∷ cp838 ∷ []

-- The digits of a number below 1000, with leading zeros.
abbrev three_digits : ℕ → Bytes
three_digits n = (0x30 + n / 100) ∷ (0x30 + n / 10 % 10) ∷ (0x30 + n % 10) ∷ []

-- A page's name begins with its number.
codepage_name-number : (id : PageId) → take 3 (codepage_name id) ≡ three_digits (number id)
unfolding codepage_name
codepage_name-number cp037 = refl
codepage_name-number _ = refl
