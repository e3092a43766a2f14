-- ===== src/CodePage/Tables/Eastern.antt =====
-- tn5250/codepage/codepage.cpp: Eastern Europe and Arabic.
use protocol_tn.Base.{[], ◌∷◌}
use protocol_tn.CodePage.Tables.{Table, assign, init_common_letters_and_digits}

-- initCP870.
unfoldable pub init_cp870 : Table → Table
init_cp870 t =
    assign
      ((0x4B, 0x002E)
        ∷ (0x4C, 0x003C)
        ∷ (0x4D, 0x0028)
        ∷ (0x4E, 0x002B)
        ∷ (0x4F, 0x0021)
        ∷ (0x50, 0x0026)
        ∷ (0x5A, 0x005D)
        ∷ (0x5B, 0x0024)
        ∷ (0x5C, 0x002A)
        ∷ (0x5D, 0x0029)
        ∷ (0x5E, 0x003B)
        ∷ (0x5F, 0x005E)
        ∷ (0x60, 0x002D)
        ∷ (0x61, 0x002F)
        ∷ (0x6B, 0x002C)
        ∷ (0x6C, 0x0025)
        ∷ (0x6D, 0x005F)
        ∷ (0x6E, 0x003E)
        ∷ (0x6F, 0x003F)
        ∷ (0x79, 0x0060)
        ∷ (0x7A, 0x003A)
        ∷ (0x7B, 0x0023)
        ∷ (0x7C, 0x0040)
        ∷ (0x7D, 0x0027)
        ∷ (0x7E, 0x003D)
        ∷ (0x7F, 0x0022)
        ∷ (0x4A, 0x005B)
        ∷ (0xAD, 0x007E)
        ∷ (0xBD, 0x005C)
        ∷ (0xB0, 0x005F)
        ∷ (0x41, 0x00A0)
        ∷ (0x42, 0x00E2)
        ∷ (0x43, 0x00E4)
        ∷ (0x44, 0x0165)
        ∷ (0x45, 0x00E1)
        ∷ (0x46, 0x0103)
        ∷ (0x47, 0x010D)
        ∷ (0x48, 0x00E7)
        ∷ (0x49, 0x0107)
        ∷ (0x51, 0x00E9)
        ∷ (0x52, 0x0119)
        ∷ (0x53, 0x00EB)
        ∷ (0x54, 0x016F)
        ∷ (0x55, 0x00ED)
        ∷ (0x56, 0x00EE)
        ∷ (0x57, 0x013E)
        ∷ (0x58, 0x013A)
        ∷ (0x59, 0x00DF)
        ∷ (0x62, 0x00C2)
        ∷ (0x63, 0x00C4)
        ∷ (0x64, 0x0164)
        ∷ (0x65, 0x00C1)
        ∷ (0x66, 0x0102)
        ∷ (0x67, 0x010C)
        ∷ (0x68, 0x00C7)
        ∷ (0x69, 0x0106)
        ∷ (0x70, 0x0111)
        ∷ (0x71, 0x00C9)
        ∷ (0x72, 0x0118)
        ∷ (0x73, 0x00CB)
        ∷ (0x74, 0x016E)
        ∷ (0x75, 0x00CD)
        ∷ (0x76, 0x00CE)
        ∷ (0x77, 0x013D)
        ∷ (0x78, 0x0139)
        ∷ (0x80, 0x0110)
        ∷ (0x8A, 0x015A)
        ∷ (0x8B, 0x0164)
        ∷ (0x8C, 0x0179)
        ∷ (0x8D, 0x00FD)
        ∷ (0x8E, 0x017D)
        ∷ (0x8F, 0x00B1)
        ∷ (0x90, 0x00B0)
        ∷ (0x9A, 0x015B)
        ∷ (0x9B, 0x0165)
        ∷ (0x9C, 0x017A)
        ∷ (0x9D, 0x00B8)
        ∷ (0x9E, 0x017E)
        ∷ (0x9F, 0x00A4)
        ∷ (0xA0, 0x00B5)
        ∷ (0xA1, 0x0105)
        ∷ (0xAA, 0x015E)
        ∷ (0xAB, 0x015F)
        ∷ (0xAC, 0x0150)
        ∷ (0xAE, 0x0151)
        ∷ (0xAF, 0x0170)
        ∷ (0xB1, 0x00A3)
        ∷ (0xB2, 0x00A5)
        ∷ (0xB3, 0x00B7)
        ∷ (0xB4, 0x00A9)
        ∷ (0xB5, 0x00A7)
        ∷ (0xB6, 0x00B6)
        ∷ (0xB7, 0x00BC)
        ∷ (0xB8, 0x00BD)
        ∷ (0xB9, 0x00BE)
        ∷ (0xBA, 0x0171)
        ∷ (0xBB, 0x00A8)
        ∷ (0xBC, 0x0104)
        ∷ (0xC0, 0x007B)
        ∷ (0xCA, 0x0148)
        ∷ (0xCB, 0x00F4)
        ∷ (0xCC, 0x00F6)
        ∷ (0xCD, 0x0155)
        ∷ (0xCE, 0x00F3)
        ∷ (0xCF, 0x0159)
        ∷ (0xD0, 0x007D)
        ∷ (0xDA, 0x0147)
        ∷ (0xDB, 0x00FB)
        ∷ (0xDC, 0x00FC)
        ∷ (0xDD, 0x0154)
        ∷ (0xDE, 0x00DA)
        ∷ (0xDF, 0x0158)
        ∷ (0xE0, 0x005C)
        ∷ (0xE1, 0x00F7)
        ∷ (0xEA, 0x0144)
        ∷ (0xEB, 0x00D4)
        ∷ (0xEC, 0x00D6)
        ∷ (0xED, 0x0143)
        ∷ (0xEE, 0x00D3)
        ∷ (0xEF, 0x0160)
        ∷ (0xFA, 0x0161)
        ∷ (0xFB, 0x00DB)
        ∷ (0xFC, 0x00DC)
        ∷ (0xFD, 0x0141)
        ∷ (0xFE, 0x0142)
        ∷ (0xFF, 0x009F)
        ∷ (0x6A, 0x017C)
        ∷ [])
      (init_common_letters_and_digits t)

-- initCP420.
unfoldable pub init_cp420 : Table → Table
init_cp420 t =
    assign
      ((0x4B, 0x002E)
        ∷ (0x4C, 0x003C)
        ∷ (0x4D, 0x0028)
        ∷ (0x4E, 0x002B)
        ∷ (0x4F, 0x007C)
        ∷ (0x50, 0x0026)
        ∷ (0x5A, 0x0021)
        ∷ (0x5B, 0x0024)
        ∷ (0x5C, 0x002A)
        ∷ (0x5D, 0x0029)
        ∷ (0x5E, 0x003B)
        ∷ (0x5F, 0x00AC)
        ∷ (0x60, 0x002D)
        ∷ (0x61, 0x002F)
        ∷ (0x6B, 0x002C)
        ∷ (0x6C, 0x0025)
        ∷ (0x6D, 0x005F)
        ∷ (0x6E, 0x003E)
        ∷ (0x6F, 0x003F)
        ∷ (0x79, 0x0060)
        ∷ (0x7A, 0x003A)
        ∷ (0x7B, 0x0023)
        ∷ (0x7C, 0x0040)
        ∷ (0x7D, 0x0027)
        ∷ (0x7E, 0x003D)
        ∷ (0x7F, 0x0022)
        ∷ (0x41, 0x00A0)
        ∷ (0x42, 0x0621)
        ∷ (0x43, 0x0622)
        ∷ (0x44, 0x0623)
        ∷ (0x45, 0x0624)
        ∷ (0x46, 0x0625)
        ∷ (0x47, 0x0626)
        ∷ (0x48, 0x0627)
        ∷ (0x49, 0x0628)
        ∷ (0x51, 0x0629)
        ∷ (0x52, 0x062A)
        ∷ (0x53, 0x062B)
        ∷ (0x54, 0x062C)
        ∷ (0x55, 0x062D)
        ∷ (0x56, 0x062E)
        ∷ (0x57, 0x062F)
        ∷ (0x58, 0x0630)
        ∷ (0x59, 0x0631)
        ∷ (0x62, 0x0632)
        ∷ (0x63, 0x0633)
        ∷ (0x64, 0x0634)
        ∷ (0x65, 0x0635)
        ∷ (0x66, 0x0636)
        ∷ (0x67, 0x0637)
        ∷ (0x68, 0x0638)
        ∷ (0x69, 0x0639)
        ∷ (0x70, 0x063A)
        ∷ (0x80, 0x0640)
        ∷ (0x8A, 0x0641)
        ∷ (0x8B, 0x0642)
        ∷ (0x8C, 0x0643)
        ∷ (0x8D, 0x0644)
        ∷ (0x8E, 0x0645)
        ∷ (0x8F, 0x0646)
        ∷ (0x90, 0x0647)
        ∷ (0x9A, 0x0648)
        ∷ (0x9B, 0x0649)
        ∷ (0x9C, 0x064A)
        ∷ (0x9D, 0x064B)
        ∷ (0x9E, 0x064C)
        ∷ (0x9F, 0x064D)
        ∷ (0xA0, 0x064E)
        ∷ (0xA1, 0x064F)
        ∷ (0xAA, 0x0650)
        ∷ (0xAB, 0x0651)
        ∷ (0xAC, 0x0652)
        ∷ (0x4A, 0x060C)
        ∷ (0x6A, 0x061B)
        ∷ (0xBF, 0x061F)
        ∷ (0xAD, 0x005B)
        ∷ (0xBD, 0x005D)
        ∷ (0xC0, 0x007B)
        ∷ (0xD0, 0x007D)
        ∷ (0xE0, 0x005C)
        ∷ [])
      (init_common_letters_and_digits t)
