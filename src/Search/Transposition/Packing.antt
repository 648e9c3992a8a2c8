-- ===== src/Search/Transposition/Packing.antt =====
-- Entries compared through their packed form.
use sofcheck.Common.{◌+◌, ◌*◌, ◌^◌, ◌%◌, ◌<◌, ◌≡◌, ◌∙◌, ◌↔◌, sym, true, arith}
use sofcheck.Common.Pack.{bit_or-field}
use sofcheck.Core.Move.{Move, as_uint}
use sofcheck.Core.Equality.{MoveFits, as_uint_sum, as_uint_injective, kind_code_lt}
use sofcheck.Search.Transposition.{Data, data_as_uint, data_eq, data_ne}

-- The fields of an entry fit their widths.
pub record DataFits (d : Data) : Type 0 where
  pub move_fits : MoveFits d.move_
  pub score_lt : d.score < 2 ^ 16
  pub flags_lt : d.flags < 2 ^ 8
  pub epoch_lt : d.epoch < 2 ^ 8

as_uint_lt : (m : Move) → MoveFits m → as_uint m < 2 ^ 32
as_uint_lt m h = omega (arith, as_uint_sum m h, kind_code_lt m.kind, h.src_lt, h.dst_lt, h.tag_lt)

data_as_uint_sum :
    (d : Data)
    → DataFits d
    → data_as_uint d ≡ as_uint d.move_ + d.score * 2 ^ 32 + d.flags * 2 ^ 48 + d.epoch * 2 ^ 56
unfolding data_as_uint
data_as_uint_sum d h =
    let lt = as_uint_lt d.move_ h.move_fits in
    let whole : d.score % 2 ^ 16 ≡ d.score = omega (arith, h.score_lt) in
    rw whole (
      rw (bit_or-field 32 (as_uint d.move_) d.score lt) (
        rw
          (bit_or-field 48 (as_uint d.move_ + d.score * 2 ^ 32) d.flags (omega (arith, h.score_lt)))
          (bit_or-field 56 (as_uint d.move_ + d.score * 2 ^ 32 + d.flags * 2 ^ 48) d.epoch
            (omega (arith, h.score_lt, h.flags_lt)))))

data_as_uint_injective :
    (a b : Data) → DataFits a → DataFits b → data_as_uint a ≡ data_as_uint b → a ≡ b
data_as_uint_injective a b ha hb e =
    let same : as_uint a.move_ + a.score * 2 ^ 32 + a.flags * 2 ^ 48 + a.epoch * 2 ^ 56
        ≡ as_uint b.move_ + b.score * 2 ^ 32 + b.flags * 2 ^ 48 + b.epoch * 2 ^ 56 =
      sym (data_as_uint_sum a ha) ∙ e ∙ data_as_uint_sum b hb in
    let la = as_uint_lt a.move_ ha.move_fits in
    let lb = as_uint_lt b.move_ hb.move_fits in
    let m =
      as_uint_injective a.move_ b.move_ ha.move_fits hb.move_fits
        (omega (arith, ha.score_lt, ha.flags_lt, hb.score_lt, hb.flags_lt)) in
    let s : a.score ≡ b.score = omega (arith, ha.score_lt, ha.flags_lt, hb.score_lt, hb.flags_lt) in
    let f : a.flags ≡ b.flags = omega (arith, ha.score_lt, ha.flags_lt, hb.score_lt, hb.flags_lt) in
    let p : a.epoch ≡ b.epoch = omega (arith, ha.score_lt, ha.flags_lt, hb.score_lt, hb.flags_lt) in
    ground (arith, m, s, f, p)

-- Entries whose fields fit their widths compare equal exactly when all their fields agree.
pub data_eq_iff : (a b : Data) → DataFits a → DataFits b → (data_eq a b ≡ true) ↔ (a ≡ b)
unfolding data_eq
data_eq_iff a b ha hb =
    (λ h. data_as_uint_injective a b ha hb (ground arith), λ e. rw e (ground arith))

-- The operator that is written to tell entries apart holds exactly of entries whose fields agree.
pub data_ne_iff : (a b : Data) → DataFits a → DataFits b → (data_ne a b ≡ true) ↔ (a ≡ b)
unfolding data_ne
data_ne_iff a b ha hb =
    (λ h. data_as_uint_injective a b ha hb (ground arith), λ e. rw e (ground arith))
