-- ===== src/Jump/Known.antt =====
-- xbyak/xbyak.h: `putL_inner` of a label that is known already. For a label that is not known yet the
-- displacement is kept in the entry of the table, and `define_inner` adds it.
use xbyak.Prelude.{ℕ, ◌≡◌, refl, false, Option, some}
use xbyak.Err.{Result, ok}
use xbyak.CodeArray.{Host}
use xbyak.LabelTable.{JmpLabel}
use xbyak.LabelManager.{LabelManager}
use xbyak.Jump.{Gen, put_l_inner}

-- The absolute address of a label that is known already is written without the displacement:
-- two calls with different displacements do the same.
pub put_l_inner-ignores_disp :
    (h : Host) {K : Type 0} (find_label : K → LabelManager → Result (Option ℕ × K × LabelManager))
    (add : K → JmpLabel → LabelManager → LabelManager) (label : K) (d1 d2 size : ℕ) (g : Gen)
    {offset : ℕ} {label' : K} {m : LabelManager}
    → find_label label g.manager ≡ ok (some offset, label', m)
    → put_l_inner h find_label add label false d1 size g
      ≡ put_l_inner h find_label add label false d2 size g
unfolding put_l_inner
put_l_inner-ignores_disp h find_label add label d1 d2 size g known = rw known refl
