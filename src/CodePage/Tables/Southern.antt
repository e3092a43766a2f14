-- ===== src/CodePage/Tables/Southern.antt =====
-- tn5250/codepage/codepage.cpp: Hebrew and Thai.
use protocol_tn.Base.{[], ◌∷◌}
use protocol_tn.CodePage.Tables.{Table, assign, init_common_letters_and_digits}

-- initCP424.
unfoldable pub init_cp424 : Table → Table
init_cp424 t =
    assign
      ((0x4B, 0x002E)
        ∷ (0x4C, 0x003C)
        ∷ (0x4D, 0x0028)
        ∷ (0x4E, 0x002B)
        ∷ (0x4F, 0x007C)
        ∷ (0x50, 0x0026)
        ∷ (0x5A, 0x0021)
        ∷ (0x5B, 0x0024)
        ∷ (0x5C, 0x002A)
        ∷ (0x5D, 0x0029)
        ∷ (0x5E, 0x003B)
        ∷ (0x5F, 0x00AC)
        ∷ (0x60, 0x002D)
        ∷ (0x61, 0x002F)
        ∷ (0x6B, 0x002C)
        ∷ (0x6C, 0x0025)
        ∷ (0x6D, 0x005F)
        ∷ (0x6E, 0x003E)
        ∷ (0x6F, 0x003F)
        ∷ (0x79, 0x0060)
        ∷ (0x7A, 0x003A)
        ∷ (0x7B, 0x0023)
        ∷ (0x7C, 0x0040)
        ∷ (0x7D, 0x0027)
        ∷ (0x7E, 0x003D)
        ∷ (0x7F, 0x0022)
        ∷ (0x41, 0x05D0)
        ∷ (0x42, 0x05D1)
        ∷ (0x43, 0x05D2)
        ∷ (0x44, 0x05D3)
        ∷ (0x45, 0x05D4)
        ∷ (0x46, 0x05D5)
        ∷ (0x47, 0x05D6)
        ∷ (0x48, 0x05D7)
        ∷ (0x49, 0x05D8)
        ∷ (0x51, 0x05D9)
        ∷ (0x52, 0x05DA)
        ∷ (0x53, 0x05DB)
        ∷ (0x54, 0x05DC)
        ∷ (0x55, 0x05DD)
        ∷ (0x56, 0x05DE)
        ∷ (0x57, 0x05DF)
        ∷ (0x58, 0x05E0)
        ∷ (0x59, 0x05E1)
        ∷ (0x62, 0x05E2)
        ∷ (0x63, 0x05E3)
        ∷ (0x64, 0x05E4)
        ∷ (0x65, 0x05E5)
        ∷ (0x66, 0x05E6)
        ∷ (0x67, 0x05E7)
        ∷ (0x68, 0x05E8)
        ∷ (0x69, 0x05E9)
        ∷ (0x70, 0x05EA)
        ∷ (0x4A, 0x00A2)
        ∷ (0x6A, 0x00A6)
        ∷ (0xAD, 0x005B)
        ∷ (0xBD, 0x005D)
        ∷ (0xC0, 0x007B)
        ∷ (0xD0, 0x007D)
        ∷ (0xE0, 0x005C)
        ∷ (0xA0, 0x00B5)
        ∷ (0xA1, 0x007E)
        ∷ [])
      (init_common_letters_and_digits t)

-- initCP838.
unfoldable pub init_cp838 : Table → Table
init_cp838 t =
    assign
      ((0x4B, 0x002E)
        ∷ (0x4C, 0x003C)
        ∷ (0x4D, 0x0028)
        ∷ (0x4E, 0x002B)
        ∷ (0x4F, 0x007C)
        ∷ (0x50, 0x0026)
        ∷ (0x5A, 0x0021)
        ∷ (0x5B, 0x0024)
        ∷ (0x5C, 0x002A)
        ∷ (0x5D, 0x0029)
        ∷ (0x5E, 0x003B)
        ∷ (0x5F, 0x00AC)
        ∷ (0x60, 0x002D)
        ∷ (0x61, 0x002F)
        ∷ (0x6B, 0x002C)
        ∷ (0x6C, 0x0025)
        ∷ (0x6D, 0x005F)
        ∷ (0x6E, 0x003E)
        ∷ (0x6F, 0x003F)
        ∷ (0x79, 0x0060)
        ∷ (0x7A, 0x003A)
        ∷ (0x7B, 0x0023)
        ∷ (0x7C, 0x0040)
        ∷ (0x7D, 0x0027)
        ∷ (0x7E, 0x003D)
        ∷ (0x7F, 0x0022)
        ∷ (0x41, 0x0E01)
        ∷ (0x42, 0x0E02)
        ∷ (0x43, 0x0E03)
        ∷ (0x44, 0x0E04)
        ∷ (0x45, 0x0E05)
        ∷ (0x46, 0x0E06)
        ∷ (0x47, 0x0E07)
        ∷ (0x48, 0x0E08)
        ∷ (0x49, 0x0E09)
        ∷ (0x51, 0x0E0A)
        ∷ (0x52, 0x0E0B)
        ∷ (0x53, 0x0E0C)
        ∷ (0x54, 0x0E0D)
        ∷ (0x55, 0x0E0E)
        ∷ (0x56, 0x0E0F)
        ∷ (0x57, 0x0E10)
        ∷ (0x58, 0x0E11)
        ∷ (0x59, 0x0E12)
        ∷ (0x62, 0x0E13)
        ∷ (0x63, 0x0E14)
        ∷ (0x64, 0x0E15)
        ∷ (0x65, 0x0E16)
        ∷ (0x66, 0x0E17)
        ∷ (0x67, 0x0E18)
        ∷ (0x68, 0x0E19)
        ∷ (0x69, 0x0E1A)
        ∷ (0x70, 0x0E1B)
        ∷ (0x71, 0x0E1C)
        ∷ (0x72, 0x0E1D)
        ∷ (0x73, 0x0E1E)
        ∷ (0x74, 0x0E1F)
        ∷ (0x75, 0x0E20)
        ∷ (0x76, 0x0E21)
        ∷ (0x77, 0x0E22)
        ∷ (0x78, 0x0E23)
        ∷ (0x80, 0x0E24)
        ∷ (0x8A, 0x0E25)
        ∷ (0x8B, 0x0E26)
        ∷ (0x8C, 0x0E27)
        ∷ (0x8D, 0x0E28)
        ∷ (0x8E, 0x0E29)
        ∷ (0x8F, 0x0E2A)
        ∷ (0x90, 0x0E2B)
        ∷ (0x9A, 0x0E2C)
        ∷ (0x9B, 0x0E2D)
        ∷ (0x9C, 0x0E2E)
        ∷ (0x9D, 0x0E30)
        ∷ (0x9E, 0x0E31)
        ∷ (0x9F, 0x0E32)
        ∷ (0xA0, 0x0E33)
        ∷ (0xA1, 0x0E34)
        ∷ (0xAA, 0x0E35)
        ∷ (0xAB, 0x0E36)
        ∷ (0xAC, 0x0E37)
        ∷ (0xAD, 0x0E38)
        ∷ (0xAE, 0x0E39)
        ∷ (0xAF, 0x0E3A)
        ∷ (0xB0, 0x0E50)
        ∷ (0xB1, 0x0E51)
        ∷ (0xB2, 0x0E52)
        ∷ (0xB3, 0x0E53)
        ∷ (0xB4, 0x0E54)
        ∷ (0xB5, 0x0E55)
        ∷ (0xB6, 0x0E56)
        ∷ (0xB7, 0x0E57)
        ∷ (0xB8, 0x0E58)
        ∷ (0xB9, 0x0E59)
        ∷ (0x4A, 0x005B)
        ∷ (0x6A, 0x005D)
        ∷ (0xC0, 0x007B)
        ∷ (0xD0, 0x007D)
        ∷ (0xE0, 0x005C)
        ∷ [])
      (init_common_letters_and_digits t)
