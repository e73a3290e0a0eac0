-- ===== src/LinkedList/Spec.antt =====
-- lib/kernel/list.c: what its operations do to a list as a sequence.
use juntos.Prelude.{Bool, List, [], ◌∷◌, if◌then◌else◌}

-- list_insert_ordered: in front of the first element that `elem` is less than, else at the end.
unfoldable pub insert_ordered {ℓ} : {A : Type ℓ} → (A → A → Bool) → A → List A → List A
insert_ordered less elem [] = elem ∷ []
insert_ordered less elem (e ∷ rest) =
    if less elem e then elem ∷ e ∷ rest else e ∷ insert_ordered less elem rest
