-- ===== src/Prelude/Chars.antt =====
-- A Go string: its bytes, or its code points where text is compared and cut at ASCII characters.
use Prim.Native.Char.{code}
use Prim.Native.String.{String, [] as nothing, ◌∷◌ as ◌◂◌}
use Prim.Native.Nat.{ℕ}
use mathlib.Core.Path.{◌≡◌, refl}
use mathlib.Core.Logic.{◌↔◌}
use mathlib.Core.Bool.{Bool, true, false, ◌&&◌}
use mathlib.Core.List.{List, [], ◌∷◌}
use native.Mathlib.Omega.{arith}
use glusterd.Prelude.Tests.{nat_beq, nat_beq_iff}
use glusterd.Prelude.Keys.{Eq}

abbrev pub Bytes : Type 0
Bytes = List ℕ

abbrev pub codes : String → Bytes
codes nothing = []
codes (c ◂ s) = code c ∷ codes s

abbrev pub bytes_beq : Bytes → Bytes → Bool
bytes_beq [] [] = true
bytes_beq [] (b ∷ bs) = false
bytes_beq (a ∷ more) [] = false
bytes_beq (a ∷ more) (b ∷ bs) = let rest = bytes_beq more bs in nat_beq a b && rest

pub bytes_beq_iff : (a b : Bytes) → (bytes_beq a b ≡ true) ↔ (a ≡ b)
bytes_beq_iff [] [] = (λ h. refl, λ h. refl)
bytes_beq_iff [] (b ∷ bs) = (λ h. cc, λ h. cc)
bytes_beq_iff (a ∷ more) [] = (λ h. cc, λ h. cc)
bytes_beq_iff (a ∷ more) (b ∷ bs) = ground (arith, nat_beq_iff a b, bytes_beq_iff more bs)

instance abbrev pub bytes_eq : Eq Bytes
bytes_eq = record { same = bytes_beq; same_iff = bytes_beq_iff }
