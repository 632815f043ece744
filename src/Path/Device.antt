-- ===== src/Path/Device.antt =====
-- The names of devices, described without the checks of `is_windows_reserved_name`.
pub mod Stem
pub mod Reserved
use check_po.Prelude.{ℕ, ◌+◌, ◌≤◌, ◌≡◌, ◌⊎◌, List, [], ◌∷◌, ◌++◌}
use check_po.Prelude.Text.{codes}
use check_po.Prelude.Text.Split.{Apart}

-- 1 to 9, and the superscripts of 1, 2 and 3.
abbrev pub IsDeviceDigit : ℕ → Type 0
IsDeviceDigit d = ((49 ≤ d) × (d ≤ 57)) ⊎ ((d ≡ 0xb9) ⊎ ((d ≡ 0xb2) ⊎ (d ≡ 0xb3)))

pub data IsDeviceWord : List ℕ → Type 0 where
  con_device : IsDeviceWord (codes "CON")
  prn_device : IsDeviceWord (codes "PRN")
  aux_device : IsDeviceWord (codes "AUX")
  nul_device : IsDeviceWord (codes "NUL")
  conin_device : IsDeviceWord (codes "CONIN$")
  conout_device : IsDeviceWord (codes "CONOUT$")
  com_device : (d : ℕ) → IsDeviceDigit d → IsDeviceWord (codes "COM" ++ (d ∷ []))
  lpt_device : (d : ℕ) → IsDeviceDigit d → IsDeviceWord (codes "LPT" ++ (d ∷ []))

-- The text is the word, where each capital from A to Z may be a small letter.
pub data Spells : List ℕ → List ℕ → Type 0 where
  nothing : Spells [] []
  same : (c : ℕ) {word s : List ℕ} → Spells word s → Spells (c ∷ word) (c ∷ s)
  small :
      (c : ℕ) {word s : List ℕ} → 65 ≤ c → c ≤ 90 → Spells word s → Spells (c ∷ word) ((c + 32) ∷ s)

-- The part of a text before its first dot, or all of it.
pub record IsStem (s stem : List ℕ) : Type 0 where
  pub rest : List ℕ
  pub form : s ≡ stem ++ rest
  pub apart : Apart 46 stem
  pub ends : (rest ≡ []) ⊎ ((t : List ℕ) × (rest ≡ 46 ∷ t))

pub record IsDevice (s : List ℕ) : Type 0 where
  pub stem : List ℕ
  pub word : List ℕ
  pub cut : IsStem s stem
  pub spelled : Spells word stem
  pub listed : IsDeviceWord word
