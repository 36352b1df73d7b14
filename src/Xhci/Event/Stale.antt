-- ===== src/Xhci/Event/Stale.antt =====
-- The removal of stale waiters by their indices.
use original_os_with_rust.Prelude.{
  ℕ, suc, ◌≡◌, refl, ap, sym, ◌∙◌, subst, arith, true, false, if◌then◌else◌,
}
use original_os_with_rust.Prelude.{List, [], ◌∷◌, ◌++◌, length, length-append, map, Bool}
use original_os_with_rust.Xhci.Trb.{GenericTrbEntry}
use original_os_with_rust.Xhci.Event.{
  Waiter, stale_from, stale_waiter_indices, remove, remove_all, deliver,
}
use original_os_with_rust.Xhci.Event.{matches, resolve}

-- The waiters with a strong reference, in order.
unfoldable pub live : List Waiter → List Waiter
live [] = []
live (w ∷ ws) = if w.alive then w ∷ live ws else live ws

-- A waiter after an event: it has the event at the end of its queue if it waits for it.
unfoldable pub give : GenericTrbEntry → Waiter → Waiter
give e w = if matches w.info e then record w { info = resolve w.info e } else w

remove_all-append :
    (ks js : List ℕ) (ws : List Waiter)
    → remove_all (ks ++ js) ws ≡ remove_all js (remove_all ks ws)
unfolding remove_all
remove_all-append [] js ws = refl
remove_all-append (k ∷ ks) js ws = remove_all-append ks js (remove ws k)

remove-length :
    (before ws : List Waiter) (w : Waiter)
    → remove (before ++ w ∷ ws) (length before) ≡ before ++ ws
remove-length [] ws w = refl
remove-length (b ∷ before) ws w = ap (λ l. b ∷ l) (remove-length before ws w)

-- One more element before the rest.
shift : (before ws : List Waiter) (w : Waiter) → (before ++ w ∷ []) ++ ws ≡ before ++ w ∷ ws
shift [] ws w = refl
shift (b ∷ before) ws w = ap (λ l. b ∷ l) (shift before ws w)

shift-length : (before : List Waiter) (w : Waiter) → length (before ++ w ∷ []) ≡ suc (length before)
shift-length before w = omega (arith, length-append before (w ∷ []))

remove_all-live :
    (before ws : List Waiter)
    → remove_all (stale_from (length before) ws) (before ++ ws) ≡ before ++ live ws
unfolding stale_from remove_all live
remove_all-live before [] = refl
remove_all-live before (w ∷ ws) =
    remove_all-append (stale_from (suc (length before)) ws)
      (if w.alive then [] else length before ∷ []) (before ++ w ∷ ws)
    ∙ ap (remove_all (if w.alive then [] else length before ∷ []))
        (rest (remove_all-live (before ++ w ∷ []) ws))
    ∙ dropped w.alive
  where
    rest :
        remove_all (stale_from (length (before ++ w ∷ [])) ws) ((before ++ w ∷ []) ++ ws)
          ≡ (before ++ w ∷ []) ++ live ws
        → remove_all (stale_from (suc (length before)) ws) (before ++ w ∷ ws)
          ≡ before ++ w ∷ live ws
    rest ih =
        subst (λ k. remove_all (stale_from k ws) (before ++ w ∷ ws) ≡ before ++ w ∷ live ws)
          (shift-length before w)
          (ap (remove_all (stale_from (length (before ++ w ∷ [])) ws)) (sym (shift before ws w))
            ∙ ih
            ∙ shift before (live ws) w)

    dropped :
        (alive : Bool)
        → remove_all (if alive then [] else length before ∷ []) (before ++ w ∷ live ws)
          ≡ before ++ (if alive then w ∷ live ws else live ws)
    dropped true = refl
    dropped false = remove-length before (live ws) w

-- Removing the stale indices, from the last on, leaves the live waiters in order.
pub stale-live : (ws : List Waiter) → remove_all (stale_waiter_indices ws) ws ≡ live ws
unfolding stale_waiter_indices
stale-live ws = remove_all-live [] ws

pub live-deliver :
    (e : GenericTrbEntry) (ws : List Waiter) → live (deliver e ws) ≡ map (give e) (live ws)
unfolding live deliver give
live-deliver e [] = refl
live-deliver e (w ∷ ws) = grind (arith, live-deliver e ws)
