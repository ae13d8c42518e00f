-- ===== src/Executor/Output.antt =====
-- `norm` of executor.py, which `run_program` applies to both outputs before it compares them.
use byte_battles.Base.{◌≡◌, refl, sym, ap, ◌∙◌, ◌↔◌}
use byte_battles.Base.Text.{Text, split, strip, join, is_space}
use byte_battles.Base.Text.Words.{split-strip, split-join, split-IsWord}

-- `"\n".join(s.strip().split())`
unfoldable pub norm : Text → Text
norm s = join 10 (split (strip s))

-- The words of a normalised text are those of the text.
split-norm : (s : Text) → split (norm s) ≡ split s
unfolding norm
split-norm s =
    split-join 10 (split (strip s)) (unfold is_space in refl) (split-IsWord (strip s))
    ∙ split-strip s

-- Two outputs are equal after norm exactly when they have the same words in the same order.
pub norm-eq_iff : (s t : Text) → (norm s ≡ norm t) ↔ (split s ≡ split t)
norm-eq_iff s t = (
  λ e. sym (split-norm s) ∙ ap split e ∙ split-norm t,
  λ e. unfold norm in ap (join 10) (split-strip s ∙ e ∙ sym (split-strip t)),
)
