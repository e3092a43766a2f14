-- ===== src/CodePage/Tables/National.antt =====
-- tn5250/codepage/codepage.cpp: the pages that change a few bytes of CP037.
use protocol_tn.Base.{[], ◌∷◌}
use protocol_tn.CodePage.Tables.{Table, assign, init_cp037}

-- initCP273.
unfoldable pub init_cp273 : Table → Table
init_cp273 t =
    assign
      ((0x4A, 0x00C4)
        ∷ (0x4F, 0x0021)
        ∷ (0x5A, 0x00D6)
        ∷ (0x5B, 0x00DC)
        ∷ (0x5F, 0x00D7)
        ∷ (0x6A, 0x00FC)
        ∷ (0x79, 0x00E4)
        ∷ (0x7B, 0x00A7)
        ∷ (0x7C, 0x00F6)
        ∷ (0xA1, 0x00DF)
        ∷ (0xB5, 0x0040)
        ∷ (0xC0, 0x007B)
        ∷ (0xD0, 0x007D)
        ∷ (0xE0, 0x005C)
        ∷ [])
      (init_cp037 t)

-- initCP277.
unfoldable pub init_cp277 : Table → Table
init_cp277 t =
    assign
      ((0x4A, 0x0023)
        ∷ (0x5B, 0x00D8)
        ∷ (0x5F, 0x00DC)
        ∷ (0x6A, 0x00F8)
        ∷ (0x79, 0x0060)
        ∷ (0x7B, 0x00C5)
        ∷ (0x7C, 0x00C6)
        ∷ (0xA1, 0x00FC)
        ∷ (0xAD, 0x00E5)
        ∷ (0xBD, 0x00E6)
        ∷ [])
      (init_cp037 t)

-- initCP278.
unfoldable pub init_cp278 : Table → Table
init_cp278 t =
    assign
      ((0x4A, 0x00C9)
        ∷ (0x5B, 0x00C5)
        ∷ (0x5F, 0x00DC)
        ∷ (0x6A, 0x00E9)
        ∷ (0x7B, 0x00D6)
        ∷ (0x7C, 0x00C4)
        ∷ (0xA1, 0x00FC)
        ∷ (0xAD, 0x00E5)
        ∷ (0xBD, 0x00F6)
        ∷ (0xBC, 0x00E4)
        ∷ [])
      (init_cp037 t)

-- initCP280.
unfoldable pub init_cp280 : Table → Table
init_cp280 t =
    assign
      ((0x4A, 0x00A3)
        ∷ (0x4F, 0x00A7)
        ∷ (0x5B, 0x00E9)
        ∷ (0x5F, 0x005E)
        ∷ (0x6A, 0x00EC)
        ∷ (0x79, 0x00F9)
        ∷ (0x7B, 0x00E0)
        ∷ (0x7C, 0x00F2)
        ∷ [])
      (init_cp037 t)

-- initCP284.
unfoldable pub init_cp284 : Table → Table
init_cp284 t =
    assign
      ((0x4A, 0x00A2)
        ∷ (0x4F, 0x0021)
        ∷ (0x5A, 0x00D1)
        ∷ (0x5F, 0x005E)
        ∷ (0x6A, 0x00F1)
        ∷ (0x7B, 0x00A7)
        ∷ (0xAD, 0x00A1)
        ∷ (0xBD, 0x00BF)
        ∷ [])
      (init_cp037 t)

-- initCP285.
unfoldable pub init_cp285 : Table → Table
init_cp285 t =
    assign ((0x4A, 0x0024) ∷ (0x5B, 0x00A3) ∷ (0x7B, 0x00AF) ∷ (0xB1, 0x0023) ∷ []) (init_cp037 t)

-- initCP297.
unfoldable pub init_cp297 : Table → Table
init_cp297 t =
    assign
      ((0x4A, 0x00E8)
        ∷ (0x4F, 0x00A7)
        ∷ (0x5B, 0x0024)
        ∷ (0x5F, 0x00B5)
        ∷ (0x6A, 0x00E9)
        ∷ (0x79, 0x00F9)
        ∷ (0x7B, 0x00E0)
        ∷ (0x7C, 0x00B0)
        ∷ (0xA1, 0x00B4)
        ∷ (0xAD, 0x00E7)
        ∷ (0xBD, 0x00A3)
        ∷ [])
      (init_cp037 t)

-- initCP500.
unfoldable pub init_cp500 : Table → Table
init_cp500 t =
    assign
      ((0x4A, 0x005B)
        ∷ (0x4F, 0x0021)
        ∷ (0x5A, 0x005D)
        ∷ (0x5F, 0x005E)
        ∷ (0xAD, 0x007E)
        ∷ (0xBD, 0x005C)
        ∷ (0xB0, 0x005F)
        ∷ [])
      (init_cp037 t)
