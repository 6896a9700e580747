-- ===== src/Tests/Digests.antt =====
-- tiger_test.go: the published vectors.
use codboz_nx_online.Base.{[], ◌∷◌, ◌≡◌, refl}
use codboz_nx_online.Go.Binary.{le_bytes, le_value}
use codboz_nx_online.Bitdemon.Tiger.{tiger192}

tiger192_empty :
    tiger192 ([])
    ≡ 50 ∷ 147 ∷ 172 ∷ 99 ∷ 12 ∷ 19 ∷ 240 ∷ 36 ∷ 95 ∷ 146 ∷ 187 ∷ 177 ∷ 118 ∷ 110 ∷ 22 ∷ 22 ∷ 122
      ∷ 78 ∷ 88 ∷ 73 ∷ 45 ∷ 222 ∷ 115 ∷ 243 ∷ []
unfolding tiger192 le_bytes le_value
tiger192_empty = refl

tiger192_abc :
    tiger192 (97 ∷ 98 ∷ 99 ∷ [])
    ≡ 42 ∷ 171 ∷ 20 ∷ 132 ∷ 232 ∷ 193 ∷ 88 ∷ 242 ∷ 191 ∷ 184 ∷ 197 ∷ 255 ∷ 65 ∷ 181 ∷ 122 ∷ 82 ∷ 81
      ∷ 41 ∷ 19 ∷ 28 ∷ 149 ∷ 123 ∷ 95 ∷ 147 ∷ []
unfolding tiger192 le_bytes le_value
tiger192_abc = refl

tiger192_multiple_blocks :
    tiger192 (
      65 ∷ 66 ∷ 67 ∷ 68 ∷ 69 ∷ 70 ∷ 71 ∷ 72 ∷ 73 ∷ 74 ∷ 75 ∷ 76 ∷ 77 ∷ 78 ∷ 79 ∷ 80 ∷ 81 ∷ 82 ∷ 83
      ∷ 84 ∷ 85 ∷ 86 ∷ 87 ∷ 88 ∷ 89 ∷ 90 ∷ 97 ∷ 98 ∷ 99 ∷ 100 ∷ 101 ∷ 102 ∷ 103 ∷ 104 ∷ 105 ∷ 106
      ∷ 107 ∷ 108 ∷ 109 ∷ 110 ∷ 111 ∷ 112 ∷ 113 ∷ 114 ∷ 115 ∷ 116 ∷ 117 ∷ 118 ∷ 119 ∷ 120 ∷ 121
      ∷ 122 ∷ 48 ∷ 49 ∷ 50 ∷ 51 ∷ 52 ∷ 53 ∷ 54 ∷ 55 ∷ 56 ∷ 57 ∷ 43 ∷ 45 ∷ [])
    ≡ 247 ∷ 28 ∷ 133 ∷ 131 ∷ 144 ∷ 42 ∷ 251 ∷ 135 ∷ 158 ∷ 223 ∷ 230 ∷ 16 ∷ 248 ∷ 44 ∷ 13 ∷ 71 ∷ 134
      ∷ 163 ∷ 165 ∷ 52 ∷ 80 ∷ 68 ∷ 134 ∷ 181 ∷ []
unfolding tiger192 le_bytes le_value
tiger192_multiple_blocks = refl
