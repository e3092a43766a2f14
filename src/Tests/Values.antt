-- ===== src/Tests/Values.antt =====
-- Runs of the record repair, the sign-on values and the code pages.
use protocol_tn.Base.{[], ◌∷◌, ◌++◌, Bytes, replicate, length, get_or, ◌≢◌, ◌≡◌, refl, arith}
use protocol_tn.CodePage.{cp037, cp273, to_unicode_table, blank_table}
use protocol_tn.CodePage.Tables.{assign, init_common_letters_and_digits, init_cp037}
use protocol_tn.CodePage.Tables.National.{init_cp273}
use protocol_tn.IbmRSeed.Size.{KeepsSize, length-encrypt_password}
use protocol_tn.IbmRSeed.{Des, encrypt_password}
use protocol_tn.Handler.Repair.{repair_gds_record_length, walk_chain}
use protocol_tn.Handler.Repair.Chain.{IsChain, end, link, walked}
use protocol_tn.Handler.Repair.Mend.{IsMendable, mend, repair-mend}

-- A whole record, and one whose length field says one byte too many.
abbrev whole_record : Bytes
whole_record = 0x00 ∷ 0x0A ∷ 0x12 ∷ 0xA0 ∷ 0x00 ∷ 0x00 ∷ 0x04 ∷ 0x00 ∷ 0x00 ∷ 0x01 ∷ []

abbrev short_record : Bytes
short_record = 0x00 ∷ 0x0B ∷ 0x12 ∷ 0xA0 ∷ 0x00 ∷ 0x00 ∷ 0x04 ∷ 0x00 ∷ 0x00 ∷ 0x01 ∷ []

whole_record-IsChain : IsChain whole_record
whole_record-IsChain =
    link whole_record [] (record { long_enough = omega arith; announces = refl }) end

walked_short : walked short_record ≡ 0
unfolding walked walk_chain
walked_short = refl

short-IsMendable : IsMendable short_record
short-IsMendable = record {
  header = omega arith;
  fits = omega arith;
  type_hi = refl;
  type_lo = refl;
}

repair-mend_example :
    (repair_gds_record_length (whole_record ++ short_record) ≡ whole_record ++ mend short_record)
    × IsChain (repair_gds_record_length (whole_record ++ short_record))
repair-mend_example =
    repair-mend whole_record short_record whole_record-IsChain walked_short short-IsMendable

letter : get_or (to_unicode_table cp273) 0xC1 0 ≡ 65
unfolding to_unicode_table blank_table assign init_common_letters_and_digits init_cp037 init_cp273
letter = refl

letter_mapped : get_or (to_unicode_table cp273) 0xC1 0 ≢ 0
letter_mapped = omega (arith, letter)

-- A cipher that keeps sizes: the text itself.
abbrev plain_des : Des
plain_des = record { ecb = λ k p. p; cbc = λ k i p. p }

plain_des-KeepsSize : KeepsSize plain_des
plain_des-KeepsSize = record { ecb_size = λ k p h l. refl; cbc_size = λ k i p h l m. refl }

length-encrypt_password_example :
    length
      (encrypt_password plain_des (b'Q' ∷ []) (b'p' ∷ []) (replicate 8 1) (replicate 8 2) cp037)
    ≡ 8
length-encrypt_password_example =
    length-encrypt_password plain_des (b'Q' ∷ []) (b'p' ∷ []) (replicate 8 1) (replicate 8 2) cp037
      plain_des-KeepsSize
