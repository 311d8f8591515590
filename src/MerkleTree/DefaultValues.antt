-- ===== src/MerkleTree/DefaultValues.antt =====
-- lee/state_machine/src/merkle_tree/default_values.rs: the hash of an empty subtree of each height.
use lp_0002_private_multisig.Prelude.{Bytes, List, [], ◌∷◌}

-- `DEFAULT_VALUES`
unfoldable pub default_values : List Bytes
default_values =
    (0 ∷ 0 ∷ 0 ∷ 0 ∷ 0 ∷ 0 ∷ 0 ∷ 0 ∷ 0 ∷ 0 ∷ 0 ∷ 0 ∷ 0 ∷ 0 ∷ 0 ∷ 0 ∷ 0 ∷ 0 ∷ 0 ∷ 0 ∷ 0 ∷ 0 ∷ 0 ∷ 0
      ∷ 0 ∷ 0 ∷ 0 ∷ 0 ∷ 0 ∷ 0 ∷ 0 ∷ 0 ∷ [])
    ∷ (245 ∷ 165 ∷ 253 ∷ 66 ∷ 209 ∷ 106 ∷ 32 ∷ 48 ∷ 39 ∷ 152 ∷ 239 ∷ 110 ∷ 211 ∷ 9 ∷ 151 ∷ 155 ∷ 67
        ∷ 0 ∷ 61 ∷ 35 ∷ 32 ∷ 217 ∷ 240 ∷ 232 ∷ 234 ∷ 152 ∷ 49 ∷ 169 ∷ 39 ∷ 89 ∷ 251 ∷ 75 ∷ [])
    ∷ (219 ∷ 86 ∷ 17 ∷ 78 ∷ 0 ∷ 253 ∷ 212 ∷ 193 ∷ 248 ∷ 92 ∷ 137 ∷ 43 ∷ 243 ∷ 90 ∷ 201 ∷ 168 ∷ 146
        ∷ 137 ∷ 170 ∷ 236 ∷ 177 ∷ 235 ∷ 208 ∷ 169 ∷ 108 ∷ 222 ∷ 96 ∷ 106 ∷ 116 ∷ 139 ∷ 93 ∷ 113
        ∷ [])
    ∷ (199 ∷ 128 ∷ 9 ∷ 253 ∷ 240 ∷ 127 ∷ 197 ∷ 106 ∷ 17 ∷ 241 ∷ 34 ∷ 55 ∷ 6 ∷ 88 ∷ 163 ∷ 83 ∷ 170
        ∷ 165 ∷ 66 ∷ 237 ∷ 99 ∷ 228 ∷ 76 ∷ 75 ∷ 193 ∷ 95 ∷ 244 ∷ 205 ∷ 16 ∷ 90 ∷ 179 ∷ 60 ∷ [])
    ∷ (83 ∷ 109 ∷ 152 ∷ 131 ∷ 127 ∷ 45 ∷ 209 ∷ 101 ∷ 165 ∷ 93 ∷ 94 ∷ 234 ∷ 233 ∷ 20 ∷ 133 ∷ 149 ∷ 68
        ∷ 114 ∷ 213 ∷ 111 ∷ 36 ∷ 109 ∷ 242 ∷ 86 ∷ 191 ∷ 60 ∷ 174 ∷ 25 ∷ 53 ∷ 42 ∷ 18 ∷ 60 ∷ [])
    ∷ (158 ∷ 253 ∷ 224 ∷ 82 ∷ 170 ∷ 21 ∷ 66 ∷ 159 ∷ 174 ∷ 5 ∷ 186 ∷ 212 ∷ 208 ∷ 177 ∷ 215 ∷ 198 ∷ 77
        ∷ 166 ∷ 77 ∷ 3 ∷ 215 ∷ 161 ∷ 133 ∷ 74 ∷ 88 ∷ 140 ∷ 44 ∷ 184 ∷ 67 ∷ 12 ∷ 13 ∷ 48 ∷ [])
    ∷ (216 ∷ 141 ∷ 223 ∷ 238 ∷ 212 ∷ 0 ∷ 168 ∷ 117 ∷ 85 ∷ 150 ∷ 178 ∷ 25 ∷ 66 ∷ 193 ∷ 73 ∷ 126 ∷ 17
        ∷ 76 ∷ 48 ∷ 46 ∷ 97 ∷ 24 ∷ 41 ∷ 15 ∷ 145 ∷ 230 ∷ 119 ∷ 41 ∷ 118 ∷ 4 ∷ 31 ∷ 161 ∷ [])
    ∷ (135 ∷ 235 ∷ 13 ∷ 219 ∷ 165 ∷ 126 ∷ 53 ∷ 246 ∷ 210 ∷ 134 ∷ 103 ∷ 56 ∷ 2 ∷ 164 ∷ 175 ∷ 89 ∷ 117
        ∷ 226 ∷ 37 ∷ 6 ∷ 199 ∷ 207 ∷ 76 ∷ 100 ∷ 187 ∷ 107 ∷ 229 ∷ 238 ∷ 17 ∷ 82 ∷ 127 ∷ 44 ∷ [])
    ∷ (38 ∷ 132 ∷ 100 ∷ 118 ∷ 253 ∷ 95 ∷ 197 ∷ 74 ∷ 93 ∷ 67 ∷ 56 ∷ 81 ∷ 103 ∷ 201 ∷ 81 ∷ 68 ∷ 242
        ∷ 100 ∷ 63 ∷ 83 ∷ 60 ∷ 200 ∷ 91 ∷ 185 ∷ 209 ∷ 107 ∷ 120 ∷ 47 ∷ 141 ∷ 125 ∷ 177 ∷ 147 ∷ [])
    ∷ (80 ∷ 109 ∷ 134 ∷ 88 ∷ 45 ∷ 37 ∷ 36 ∷ 5 ∷ 184 ∷ 64 ∷ 1 ∷ 135 ∷ 146 ∷ 202 ∷ 210 ∷ 191 ∷ 18 ∷ 89
        ∷ 241 ∷ 239 ∷ 90 ∷ 165 ∷ 248 ∷ 135 ∷ 225 ∷ 60 ∷ 178 ∷ 240 ∷ 9 ∷ 79 ∷ 81 ∷ 225 ∷ [])
    ∷ (255 ∷ 255 ∷ 10 ∷ 215 ∷ 230 ∷ 89 ∷ 119 ∷ 47 ∷ 149 ∷ 52 ∷ 193 ∷ 149 ∷ 200 ∷ 21 ∷ 239 ∷ 196 ∷ 1
        ∷ 78 ∷ 241 ∷ 225 ∷ 218 ∷ 237 ∷ 68 ∷ 4 ∷ 192 ∷ 99 ∷ 133 ∷ 209 ∷ 17 ∷ 146 ∷ 233 ∷ 43 ∷ [])
    ∷ (108 ∷ 240 ∷ 65 ∷ 39 ∷ 219 ∷ 5 ∷ 68 ∷ 28 ∷ 216 ∷ 51 ∷ 16 ∷ 122 ∷ 82 ∷ 190 ∷ 133 ∷ 40 ∷ 104
        ∷ 137 ∷ 14 ∷ 67 ∷ 23 ∷ 230 ∷ 160 ∷ 42 ∷ 180 ∷ 118 ∷ 131 ∷ 170 ∷ 117 ∷ 150 ∷ 66 ∷ 32 ∷ [])
    ∷ (183 ∷ 208 ∷ 95 ∷ 135 ∷ 95 ∷ 20 ∷ 0 ∷ 39 ∷ 239 ∷ 81 ∷ 24 ∷ 162 ∷ 36 ∷ 123 ∷ 187 ∷ 132 ∷ 206
        ∷ 143 ∷ 47 ∷ 15 ∷ 17 ∷ 35 ∷ 98 ∷ 48 ∷ 133 ∷ 218 ∷ 247 ∷ 150 ∷ 12 ∷ 50 ∷ 159 ∷ 95 ∷ [])
    ∷ (223 ∷ 106 ∷ 245 ∷ 245 ∷ 187 ∷ 219 ∷ 107 ∷ 233 ∷ 239 ∷ 138 ∷ 166 ∷ 24 ∷ 228 ∷ 191 ∷ 128 ∷ 115
        ∷ 150 ∷ 8 ∷ 103 ∷ 23 ∷ 30 ∷ 41 ∷ 103 ∷ 111 ∷ 139 ∷ 40 ∷ 77 ∷ 234 ∷ 106 ∷ 8 ∷ 168 ∷ 94 ∷ [])
    ∷ (181 ∷ 141 ∷ 144 ∷ 15 ∷ 94 ∷ 24 ∷ 46 ∷ 60 ∷ 80 ∷ 239 ∷ 116 ∷ 150 ∷ 158 ∷ 161 ∷ 108 ∷ 119 ∷ 38
        ∷ 197 ∷ 73 ∷ 117 ∷ 124 ∷ 194 ∷ 53 ∷ 35 ∷ 195 ∷ 105 ∷ 88 ∷ 125 ∷ 167 ∷ 41 ∷ 55 ∷ 132 ∷ [])
    ∷ (212 ∷ 154 ∷ 117 ∷ 2 ∷ 255 ∷ 207 ∷ 176 ∷ 52 ∷ 11 ∷ 29 ∷ 120 ∷ 133 ∷ 104 ∷ 133 ∷ 0 ∷ 202 ∷ 48
        ∷ 129 ∷ 97 ∷ 167 ∷ 249 ∷ 107 ∷ 98 ∷ 223 ∷ 157 ∷ 8 ∷ 59 ∷ 113 ∷ 252 ∷ 200 ∷ 242 ∷ 187 ∷ [])
    ∷ (143 ∷ 230 ∷ 177 ∷ 104 ∷ 146 ∷ 86 ∷ 192 ∷ 211 ∷ 133 ∷ 244 ∷ 47 ∷ 91 ∷ 190 ∷ 32 ∷ 39 ∷ 162 ∷ 44
        ∷ 25 ∷ 150 ∷ 225 ∷ 16 ∷ 186 ∷ 151 ∷ 193 ∷ 113 ∷ 211 ∷ 229 ∷ 148 ∷ 141 ∷ 233 ∷ 43 ∷ 235 ∷ [])
    ∷ (141 ∷ 13 ∷ 99 ∷ 195 ∷ 158 ∷ 186 ∷ 222 ∷ 133 ∷ 9 ∷ 224 ∷ 174 ∷ 60 ∷ 156 ∷ 56 ∷ 118 ∷ 251 ∷ 95
        ∷ 161 ∷ 18 ∷ 190 ∷ 24 ∷ 249 ∷ 5 ∷ 236 ∷ 172 ∷ 254 ∷ 203 ∷ 146 ∷ 5 ∷ 118 ∷ 3 ∷ 171 ∷ [])
    ∷ (149 ∷ 238 ∷ 200 ∷ 178 ∷ 229 ∷ 65 ∷ 202 ∷ 212 ∷ 233 ∷ 29 ∷ 227 ∷ 131 ∷ 133 ∷ 242 ∷ 224 ∷ 70
        ∷ 97 ∷ 159 ∷ 84 ∷ 73 ∷ 108 ∷ 35 ∷ 130 ∷ 203 ∷ 108 ∷ 172 ∷ 213 ∷ 185 ∷ 140 ∷ 38 ∷ 245 ∷ 164
        ∷ [])
    ∷ (248 ∷ 147 ∷ 233 ∷ 8 ∷ 145 ∷ 119 ∷ 117 ∷ 182 ∷ 43 ∷ 255 ∷ 35 ∷ 41 ∷ 77 ∷ 187 ∷ 227 ∷ 161 ∷ 205
        ∷ 142 ∷ 108 ∷ 193 ∷ 195 ∷ 91 ∷ 72 ∷ 1 ∷ 136 ∷ 123 ∷ 100 ∷ 106 ∷ 111 ∷ 129 ∷ 241 ∷ 127 ∷ [])
    ∷ (205 ∷ 219 ∷ 167 ∷ 181 ∷ 146 ∷ 227 ∷ 19 ∷ 51 ∷ 147 ∷ 193 ∷ 97 ∷ 148 ∷ 250 ∷ 199 ∷ 67 ∷ 26
        ∷ 191 ∷ 47 ∷ 84 ∷ 133 ∷ 237 ∷ 113 ∷ 29 ∷ 178 ∷ 130 ∷ 24 ∷ 60 ∷ 129 ∷ 158 ∷ 8 ∷ 235 ∷ 170
        ∷ [])
    ∷ (138 ∷ 141 ∷ 127 ∷ 227 ∷ 175 ∷ 140 ∷ 170 ∷ 8 ∷ 90 ∷ 118 ∷ 57 ∷ 168 ∷ 50 ∷ 0 ∷ 20 ∷ 87 ∷ 223
        ∷ 185 ∷ 18 ∷ 138 ∷ 128 ∷ 97 ∷ 20 ∷ 42 ∷ 208 ∷ 51 ∷ 86 ∷ 41 ∷ 255 ∷ 35 ∷ 255 ∷ 156 ∷ [])
    ∷ (254 ∷ 179 ∷ 195 ∷ 55 ∷ 215 ∷ 165 ∷ 26 ∷ 111 ∷ 191 ∷ 0 ∷ 185 ∷ 227 ∷ 76 ∷ 82 ∷ 225 ∷ 201 ∷ 25
        ∷ 92 ∷ 150 ∷ 155 ∷ 212 ∷ 231 ∷ 160 ∷ 191 ∷ 213 ∷ 29 ∷ 92 ∷ 91 ∷ 237 ∷ 156 ∷ 17 ∷ 103 ∷ [])
    ∷ (231 ∷ 31 ∷ 10 ∷ 168 ∷ 60 ∷ 195 ∷ 46 ∷ 223 ∷ 190 ∷ 250 ∷ 159 ∷ 77 ∷ 62 ∷ 1 ∷ 116 ∷ 202 ∷ 133
        ∷ 24 ∷ 46 ∷ 236 ∷ 159 ∷ 58 ∷ 9 ∷ 246 ∷ 166 ∷ 192 ∷ 223 ∷ 99 ∷ 119 ∷ 165 ∷ 16 ∷ 215 ∷ [])
    ∷ (49 ∷ 32 ∷ 111 ∷ 168 ∷ 10 ∷ 80 ∷ 187 ∷ 106 ∷ 190 ∷ 41 ∷ 8 ∷ 80 ∷ 88 ∷ 241 ∷ 98 ∷ 18 ∷ 33 ∷ 42
        ∷ 96 ∷ 238 ∷ 200 ∷ 240 ∷ 73 ∷ 254 ∷ 203 ∷ 146 ∷ 216 ∷ 200 ∷ 224 ∷ 168 ∷ 75 ∷ 192 ∷ [])
    ∷ (33 ∷ 53 ∷ 43 ∷ 254 ∷ 203 ∷ 237 ∷ 221 ∷ 233 ∷ 147 ∷ 131 ∷ 159 ∷ 97 ∷ 76 ∷ 61 ∷ 172 ∷ 10 ∷ 62
        ∷ 227 ∷ 117 ∷ 67 ∷ 249 ∷ 180 ∷ 18 ∷ 177 ∷ 97 ∷ 153 ∷ 220 ∷ 21 ∷ 142 ∷ 35 ∷ 181 ∷ 68 ∷ [])
    ∷ (97 ∷ 158 ∷ 49 ∷ 39 ∷ 36 ∷ 187 ∷ 109 ∷ 124 ∷ 49 ∷ 83 ∷ 237 ∷ 157 ∷ 231 ∷ 145 ∷ 215 ∷ 100 ∷ 163
        ∷ 102 ∷ 179 ∷ 137 ∷ 175 ∷ 19 ∷ 197 ∷ 139 ∷ 248 ∷ 168 ∷ 217 ∷ 4 ∷ 129 ∷ 164 ∷ 103 ∷ 101 ∷ [])
    ∷ (124 ∷ 221 ∷ 41 ∷ 134 ∷ 38 ∷ 130 ∷ 80 ∷ 98 ∷ 141 ∷ 12 ∷ 16 ∷ 227 ∷ 133 ∷ 197 ∷ 140 ∷ 97 ∷ 145
        ∷ 230 ∷ 251 ∷ 224 ∷ 81 ∷ 145 ∷ 188 ∷ 192 ∷ 79 ∷ 19 ∷ 63 ∷ 44 ∷ 234 ∷ 114 ∷ 193 ∷ 196 ∷ [])
    ∷ (132 ∷ 137 ∷ 48 ∷ 189 ∷ 123 ∷ 168 ∷ 202 ∷ 197 ∷ 70 ∷ 97 ∷ 7 ∷ 33 ∷ 19 ∷ 251 ∷ 39 ∷ 136 ∷ 105
        ∷ 224 ∷ 123 ∷ 184 ∷ 88 ∷ 127 ∷ 145 ∷ 57 ∷ 41 ∷ 51 ∷ 55 ∷ 77 ∷ 1 ∷ 123 ∷ 203 ∷ 225 ∷ [])
    ∷ (136 ∷ 105 ∷ 255 ∷ 44 ∷ 34 ∷ 178 ∷ 140 ∷ 193 ∷ 5 ∷ 16 ∷ 217 ∷ 133 ∷ 50 ∷ 146 ∷ 128 ∷ 51 ∷ 40
        ∷ 190 ∷ 79 ∷ 176 ∷ 232 ∷ 4 ∷ 149 ∷ 232 ∷ 187 ∷ 141 ∷ 39 ∷ 31 ∷ 91 ∷ 136 ∷ 150 ∷ 54 ∷ [])
    ∷ (181 ∷ 254 ∷ 40 ∷ 231 ∷ 159 ∷ 27 ∷ 133 ∷ 15 ∷ 134 ∷ 88 ∷ 36 ∷ 108 ∷ 233 ∷ 182 ∷ 161 ∷ 231
        ∷ 180 ∷ 159 ∷ 192 ∷ 109 ∷ 183 ∷ 20 ∷ 62 ∷ 143 ∷ 224 ∷ 180 ∷ 242 ∷ 176 ∷ 197 ∷ 82 ∷ 58 ∷ 92
        ∷ [])
    ∷ (152 ∷ 94 ∷ 146 ∷ 159 ∷ 112 ∷ 175 ∷ 40 ∷ 208 ∷ 189 ∷ 209 ∷ 169 ∷ 10 ∷ 128 ∷ 143 ∷ 151 ∷ 127
        ∷ 89 ∷ 124 ∷ 124 ∷ 119 ∷ 140 ∷ 72 ∷ 158 ∷ 152 ∷ 211 ∷ 189 ∷ 137 ∷ 16 ∷ 211 ∷ 26 ∷ 192 ∷ 247
        ∷ [])
    ∷ []
