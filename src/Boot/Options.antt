-- ===== src/Boot/Options.antt =====
-- The option bytes: `option_bytes_set`. A list of the eight stored value bytes, in ObIndex order.
use open_skyhawk.Base.{ℕ, zero, suc, ◌+◌, ◌%◌, Bool, true, false, ◌&&◌, List, get_or, set, ◌==◌}
use open_skyhawk.Boot.Protocol.{unset}
use open_skyhawk.Boot.Flash.{Chip}

abbrev pub ob_data0 : ℕ
ob_data0 = 2

abbrev pub ob_data1 : ℕ
ob_data1 = 3

abbrev pub ob_wrp0 : ℕ
ob_wrp0 = 4

abbrev pub ob_count : ℕ
ob_count = 8

module _ (c : Chip) where
  -- the programming loop: byte `i` on, `k` to go; RDP is byte 0, so it goes first
  unfoldable pub program_options : ℕ → ℕ → List ℕ → Bool → List ℕ → Bool × List ℕ
  program_options zero i v good o = (good, o)
  program_options (suc k) i v good o =
      let x = get_or v i 0 in
      let (done, o') = c.program_option o i x in
      elim (x == unset) [
        | true ↦ program_options k (i + 1) v good o
        | false ↦ program_options k (i + 1) v (good && (done && get_or o' i 0 % 256 == x % 256)) o'
      ]

  -- the read-back loop
  unfoldable pub options_match : ℕ → ℕ → List ℕ → List ℕ → Bool
  options_match zero i v o = true
  options_match (suc k) i v o = get_or o i 0 % 256 == get_or v i 0 && options_match k (i + 1) v o

  unfoldable pub option_bytes_set : ℕ → ℕ → ℕ → List ℕ → Bool × List ℕ
  option_bytes_set data0 data1 wrp0 opt =
      let v = set (set (set opt ob_data0 data0) ob_data1 data1) ob_wrp0 wrp0 in
      let (erased, o) = c.erase_options opt in
      let (good, o') = program_options ob_count 0 v erased o in
      (good && options_match ob_count 0 v o', o')
