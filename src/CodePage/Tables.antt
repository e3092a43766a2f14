-- ===== src/CodePage/Tables.antt =====
-- tn5250/codepage/codepage.cpp: the assignments of each init function, in its order. A table holds the
-- Unicode code point of each of the 256 EBCDIC bytes.
pub mod National
pub mod Eastern
pub mod Southern
use protocol_tn.Base.{ℕ, List, [], ◌∷◌, set}

abbrev pub Table : Type 0
Table = List ℕ

-- t[x] = y for each pair, in order.
unfoldable pub assign : List (ℕ × ℕ) → Table → Table
assign [] t = t
assign ((x, y) ∷ more) t = assign more (set t x y)

-- initCommonLettersAndDigits.
unfoldable pub init_common_letters_and_digits : Table → Table
init_common_letters_and_digits t =
    assign
      ((0x81, 0x61)
        ∷ (0x82, 0x62)
        ∷ (0x83, 0x63)
        ∷ (0x84, 0x64)
        ∷ (0x85, 0x65)
        ∷ (0x86, 0x66)
        ∷ (0x87, 0x67)
        ∷ (0x88, 0x68)
        ∷ (0x89, 0x69)
        ∷ (0x91, 0x6A)
        ∷ (0x92, 0x6B)
        ∷ (0x93, 0x6C)
        ∷ (0x94, 0x6D)
        ∷ (0x95, 0x6E)
        ∷ (0x96, 0x6F)
        ∷ (0x97, 0x70)
        ∷ (0x98, 0x71)
        ∷ (0x99, 0x72)
        ∷ (0xA2, 0x73)
        ∷ (0xA3, 0x74)
        ∷ (0xA4, 0x75)
        ∷ (0xA5, 0x76)
        ∷ (0xA6, 0x77)
        ∷ (0xA7, 0x78)
        ∷ (0xA8, 0x79)
        ∷ (0xA9, 0x7A)
        ∷ (0xC1, 0x41)
        ∷ (0xC2, 0x42)
        ∷ (0xC3, 0x43)
        ∷ (0xC4, 0x44)
        ∷ (0xC5, 0x45)
        ∷ (0xC6, 0x46)
        ∷ (0xC7, 0x47)
        ∷ (0xC8, 0x48)
        ∷ (0xC9, 0x49)
        ∷ (0xD1, 0x4A)
        ∷ (0xD2, 0x4B)
        ∷ (0xD3, 0x4C)
        ∷ (0xD4, 0x4D)
        ∷ (0xD5, 0x4E)
        ∷ (0xD6, 0x4F)
        ∷ (0xD7, 0x50)
        ∷ (0xD8, 0x51)
        ∷ (0xD9, 0x52)
        ∷ (0xE2, 0x53)
        ∷ (0xE3, 0x54)
        ∷ (0xE4, 0x55)
        ∷ (0xE5, 0x56)
        ∷ (0xE6, 0x57)
        ∷ (0xE7, 0x58)
        ∷ (0xE8, 0x59)
        ∷ (0xE9, 0x5A)
        ∷ (0xF0, 0x30)
        ∷ (0xF1, 0x31)
        ∷ (0xF2, 0x32)
        ∷ (0xF3, 0x33)
        ∷ (0xF4, 0x34)
        ∷ (0xF5, 0x35)
        ∷ (0xF6, 0x36)
        ∷ (0xF7, 0x37)
        ∷ (0xF8, 0x38)
        ∷ (0xF9, 0x39)
        ∷ [])
      t

-- initCP037.
unfoldable pub init_cp037 : Table → Table
init_cp037 t =
    assign
      ((0x4A, 0x00A2)
        ∷ (0x4B, 0x002E)
        ∷ (0x4C, 0x003C)
        ∷ (0x4D, 0x0028)
        ∷ (0x4E, 0x002B)
        ∷ (0x4F, 0x007C)
        ∷ (0x50, 0x0026)
        ∷ (0x5A, 0x0021)
        ∷ (0x5B, 0x0024)
        ∷ (0x5C, 0x002A)
        ∷ (0x5D, 0x0029)
        ∷ (0x5E, 0x003B)
        ∷ (0x5F, 0x005E)
        ∷ (0x60, 0x002D)
        ∷ (0x61, 0x002F)
        ∷ (0x6A, 0x00A6)
        ∷ (0x6B, 0x002C)
        ∷ (0x6C, 0x0025)
        ∷ (0x6D, 0x005F)
        ∷ (0x6E, 0x003E)
        ∷ (0x6F, 0x003F)
        ∷ (0x79, 0x0060)
        ∷ (0x7A, 0x003A)
        ∷ (0x7B, 0x0023)
        ∷ (0x7C, 0x0040)
        ∷ (0x7D, 0x0027)
        ∷ (0x7E, 0x003D)
        ∷ (0x7F, 0x0022)
        ∷ (0x41, 0x00A0)
        ∷ (0x42, 0x00E2)
        ∷ (0x43, 0x00E4)
        ∷ (0x44, 0x00E0)
        ∷ (0x45, 0x00E1)
        ∷ (0x46, 0x00E3)
        ∷ (0x47, 0x00E5)
        ∷ (0x48, 0x00E7)
        ∷ (0x49, 0x00F1)
        ∷ (0x51, 0x00E9)
        ∷ (0x52, 0x00EA)
        ∷ (0x53, 0x00EB)
        ∷ (0x54, 0x00E8)
        ∷ (0x55, 0x00ED)
        ∷ (0x56, 0x00EE)
        ∷ (0x57, 0x00EF)
        ∷ (0x58, 0x00EC)
        ∷ (0x59, 0x00DF)
        ∷ (0x62, 0x00C2)
        ∷ (0x63, 0x00C4)
        ∷ (0x64, 0x00C0)
        ∷ (0x65, 0x00C1)
        ∷ (0x66, 0x00C3)
        ∷ (0x67, 0x00C5)
        ∷ (0x68, 0x00C7)
        ∷ (0x69, 0x00D1)
        ∷ (0x70, 0x00F8)
        ∷ (0x71, 0x00C9)
        ∷ (0x72, 0x00CA)
        ∷ (0x73, 0x00CB)
        ∷ (0x74, 0x00C8)
        ∷ (0x75, 0x00CD)
        ∷ (0x76, 0x00CE)
        ∷ (0x77, 0x00CF)
        ∷ (0x78, 0x00CC)
        ∷ (0x80, 0x00D8)
        ∷ (0x8A, 0x00AB)
        ∷ (0x8B, 0x00BB)
        ∷ (0x8C, 0x00F0)
        ∷ (0x8D, 0x00FD)
        ∷ (0x8E, 0x00FE)
        ∷ (0x8F, 0x00B1)
        ∷ (0x90, 0x00B0)
        ∷ (0x9A, 0x00AA)
        ∷ (0x9B, 0x00BA)
        ∷ (0x9C, 0x00E6)
        ∷ (0x9D, 0x00B8)
        ∷ (0x9E, 0x00C6)
        ∷ (0x9F, 0x00A4)
        ∷ (0xA0, 0x00B5)
        ∷ (0xA1, 0x007E)
        ∷ (0xAA, 0x00A1)
        ∷ (0xAB, 0x00BF)
        ∷ (0xAC, 0x00D0)
        ∷ (0xAD, 0x005B)
        ∷ (0xAE, 0x00DE)
        ∷ (0xAF, 0x00AE)
        ∷ (0xB0, 0x00AC)
        ∷ (0xB1, 0x00A3)
        ∷ (0xB2, 0x00A5)
        ∷ (0xB3, 0x00B7)
        ∷ (0xB4, 0x00A9)
        ∷ (0xB5, 0x00A7)
        ∷ (0xB6, 0x00B6)
        ∷ (0xB7, 0x00BC)
        ∷ (0xB8, 0x00BD)
        ∷ (0xB9, 0x00BE)
        ∷ (0xBA, 0x00DD)
        ∷ (0xBB, 0x00A8)
        ∷ (0xBC, 0x00AF)
        ∷ (0xBD, 0x005D)
        ∷ (0xBE, 0x00B4)
        ∷ (0xBF, 0x00D7)
        ∷ (0xC0, 0x007B)
        ∷ (0xCA, 0x00AD)
        ∷ (0xCB, 0x00F4)
        ∷ (0xCC, 0x00F6)
        ∷ (0xCD, 0x00F2)
        ∷ (0xCE, 0x00F3)
        ∷ (0xCF, 0x00F5)
        ∷ (0xD0, 0x007D)
        ∷ (0xDA, 0x00B9)
        ∷ (0xDB, 0x00FB)
        ∷ (0xDC, 0x00FC)
        ∷ (0xDD, 0x00F9)
        ∷ (0xDE, 0x00FA)
        ∷ (0xDF, 0x00FF)
        ∷ (0xE0, 0x005C)
        ∷ (0xE1, 0x00F7)
        ∷ (0xEA, 0x00B2)
        ∷ (0xEB, 0x00D4)
        ∷ (0xEC, 0x00D6)
        ∷ (0xED, 0x00D2)
        ∷ (0xEE, 0x00D3)
        ∷ (0xEF, 0x00D5)
        ∷ (0xFA, 0x00B3)
        ∷ (0xFB, 0x00DB)
        ∷ (0xFC, 0x00DC)
        ∷ (0xFD, 0x00D9)
        ∷ (0xFE, 0x00DA)
        ∷ (0xFF, 0x009F)
        ∷ [])
      (init_common_letters_and_digits t)
