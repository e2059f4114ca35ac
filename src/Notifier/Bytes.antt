-- ===== src/Notifier/Bytes.antt =====
-- The bytes of a text: UTF-8, as Go stores it.
use Prim.Native.Nat.{ℕ, ◌+◌, ◌/◌, ◌%◌}
use Prim.Native.Char.{code}
use Prim.Native.String.{String, [] as no_text, ◌∷◌ as char_then}
use chronos_monitor.Prelude.{List, [], ◌∷◌, ◌++◌, ltb, if◌then◌else◌}

abbrev pub encoded : ℕ → List ℕ
encoded c =
    if ltb c 128
    then c ∷ []
    else if ltb c 2048
    then (192 + c / 64) ∷ (128 + c % 64) ∷ []
    else if ltb c 65536
    then (224 + c / 4096) ∷ (128 + c / 64 % 64) ∷ (128 + c % 64) ∷ []
    else (240 + c / 262144) ∷ (128 + c / 4096 % 64) ∷ (128 + c / 64 % 64) ∷ (128 + c % 64) ∷ []

unfoldable pub bytes : String → List ℕ
bytes no_text = []
bytes (char_then c s) = encoded (code c) ++ bytes s
