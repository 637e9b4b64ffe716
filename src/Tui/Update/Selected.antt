-- ===== src/Tui/Update/Selected.antt =====
-- What `Update` does with the item at the cursor, and with the preview.
use kswitch.Prelude.{ℕ, ◌≡◌, false, some, List, [], ◌∷◌, arith, nat_eq, get_elem?, length}
use kswitch.Tui.Item.{Item, Env, Model}
use kswitch.Tui.Update.{Step, with_selected}

nonempty {ℓ} :
    {A : Type ℓ} (xs : List A) (i : ℕ) (x : A)
    → get_elem? xs i ≡ some x
    → nat_eq (length xs) 0 ≡ false
nonempty [] i x h = absurd (cc)
nonempty (y ∷ xs) i x h = ground arith

pub with_selected_lem :
    {env : Env} (f : Model env → Item → Step env) (otherwise : Step env) (m : Model env)
    (sel : Item)
    → get_elem? m.filtered m.cursor ≡ some sel
    → with_selected f otherwise m ≡ f m sel
unfolding with_selected
with_selected_lem f otherwise m sel h = rw (nonempty m.filtered m.cursor sel h, h)
