-- ===== src/Usb/Pick/Found.antt =====
-- usb.rs: what the loop of `pick_interface_with_triple` has found.
use original_os_with_rust.Prelude.{
  ℕ, ◌≡◌, ◌⊎◌, inl, inr, refl, ap, ◌∙◌, sym, subst, Bool-cases, Option, none, some, Option-cases,
  List, [], ◌∷◌, ◌++◌, All,
}
use original_os_with_rust.Usb.{
  UsbDescriptor, ConfigDescriptor, InterfaceDescriptor, EndpointDescriptor, config, interface,
  endpoint, unknown_descriptor, Picked, pick_loop, both, pick_interface_with_triple, triple,
  same_triple,
}
use original_os_with_rust.Usb.Pick.{IsConfig, IsEnd, Unmatched, last_match, endpoints, IsPick}
use mathlib.Core.List.{append-nil, append_assoc}
use mathlib.Core.Option.{none-ne-some, some-injective}

-- The same for a loop that has come to a configuration already.
record InConfig (t : ℕ × ℕ × ℕ) (p : Picked) (ds : List UsbDescriptor) (c : ConfigDescriptor)
    (i : InterfaceDescriptor) (es : List EndpointDescriptor) : Type 0 where
  begun : p.config ≡ some c
  body : List UsbDescriptor
  after : List UsbDescriptor
  split : ds ≡ body ++ after
  inside : All (λ d. ¬ IsConfig d) body
  end : IsEnd after
  found : last_match t p.interface body ≡ some i
  points : es ≡ p.ep_list ++ endpoints body

module _ (t : ℕ × ℕ × ℕ) (c : ConfigDescriptor) (i : InterfaceDescriptor)
    (es : List EndpointDescriptor) where
  abbrev Picks : Picked → List UsbDescriptor → Type 0
  Picks p ds = InConfig t p ds c i es ⊎ ((p.interface ≡ none) × IsPick t ds c i es)

  -- A descriptor before the configuration.
  past :
      (d : UsbDescriptor) (ds : List UsbDescriptor)
      → Unmatched t d
      → IsPick t ds c i es
      → IsPick t (d ∷ ds) c i es
  past d ds h k = record {
    before = d ∷ k.before;
    body = k.body;
    after = k.after;
    split = ap (λ xs. d ∷ xs) k.split;
    first = (h, k.first);
    inside = k.inside;
    end = k.end;
    found = k.found;
    points = k.points;
  }

  -- The loop that is at a configuration.
  opened :
      (p : Picked) (e : ConfigDescriptor) (ds : List UsbDescriptor)
      → p.interface ≡ none
      → InConfig t (record p { config = some e; ep_list = [] }) ds c i es
      → IsPick t (config e ∷ ds) c i es
  opened p e ds none_yet k = record {
    before = [];
    body = k.body;
    after = k.after;
    split =
        let same : e ≡ c = some-injective e c k.begun in
        ap (λ xs. config e ∷ xs) k.split ∙ ap (λ x. config x ∷ (k.body ++ k.after)) same;
    first = tt;
    inside = k.inside;
    end = k.end;
    found = subst (λ o. last_match t o k.body ≡ some i) none_yet k.found;
    points = k.points;
  }

  stopped :
      (p : Picked) (ds : List UsbDescriptor)
      → IsEnd ds
      → both p ≡ some (c, i, es)
      → InConfig t p ds c i es
  unfolding both
  stopped p ds last h = ended p.config p.interface refl refl
    where
      ended :
          (oc : Option ConfigDescriptor) (oi : Option InterfaceDescriptor)
          → p.config ≡ oc
          → p.interface ≡ oi
          → InConfig t p ds c i es
      ended none oi ec ei = absurd (none-ne-some (c, i, es) (rw ec at h))
      ended (some c') none ec ei = absurd (none-ne-some (c, i, es) (rw (ec, ei) at h))
      ended (some c') (some i') ec ei =
          let eq = some-injective (c', i', p.ep_list) (c, i, es) (rw (ec, ei) at h) in
          record {
            begun = ec ∙ ap (λ r. some (r.0)) eq;
            body = [];
            after = ds;
            split = refl;
            inside = tt;
            end = last;
            found = ei ∙ ap (λ r. some (r.1)) eq;
            points = sym (ap (λ r. r.2) eq) ∙ sym (append-nil p.ep_list);
          }

  -- A descriptor of the configuration that the loop is in.
  taken :
      (p p' : Picked) (d : UsbDescriptor) (ds : List UsbDescriptor)
      → ¬ IsConfig d
      → p'.config ≡ p.config
      → ((body : List UsbDescriptor)
          → last_match t p.interface (d ∷ body) ≡ last_match t p'.interface body)
      → ((body : List UsbDescriptor)
          → p'.ep_list ++ endpoints body ≡ p.ep_list ++ endpoints (d ∷ body))
      → InConfig t p' ds c i es
      → InConfig t p (d ∷ ds) c i es
  taken p p' d ds other same matches points k = record {
    begun = sym same ∙ k.begun;
    body = d ∷ k.body;
    after = k.after;
    split = ap (λ xs. d ∷ xs) k.split;
    inside = (other, k.inside);
    end = k.end;
    found = matches k.body ∙ k.found;
    points = k.points ∙ points k.body;
  }

  loop-Picks :
      (p : Picked) (ds : List UsbDescriptor)
      → both (pick_loop t p ds) ≡ some (c, i, es)
      → Picks p ds
  unfolding pick_loop
  loop-Picks p [] h = inl (stopped p [] tt h)
  loop-Picks p (config e ∷ ds) h = elim (Option-cases p.interface) [
    | inr (j, has) ↦ inl (stopped p (config e ∷ ds) tt (rw (pick_loop, has) at h))
    | inl none_yet ↦ inr (
      none_yet,
      elim (loop-Picks (record p { config = some e; ep_list = [] }) ds
          (subst
            (λ o.
              both (elim o [
                | some j ↦ p
                | none ↦ pick_loop t (record p { config = some e; ep_list = [] }) ds
              ])
              ≡ some (c, i, es))
            none_yet h)) [
              | inl k ↦ opened p e ds none_yet k
              | inr (n, k) ↦ past (config e) ds tt k
            ],
    )
  ]
  loop-Picks p (interface e ∷ ds) h = elim (Bool-cases (same_triple t (triple e))) [
    | inl same ↦
        let p' : Picked = record p { interface = some e } in
        elim (loop-Picks p' ds (rw (pick_loop, same) at h)) [
          | inl k ↦
              inl
                (taken p p' (interface e) ds (λ x. x) refl (λ body. rw same refl) (λ body. refl) k)
          | inr (n, k) ↦ absurd (none-ne-some e (sym n))
        ]
    | inr other ↦ elim (loop-Picks p ds (rw (pick_loop, other) at h)) [
      | inl k ↦
          inl (taken p p (interface e) ds (λ x. x) refl (λ body. rw other refl) (λ body. refl) k)
      | inr (n, k) ↦ inr (n, past (interface e) ds other k)
    ]
  ]
  loop-Picks p (endpoint e ∷ ds) h =
      let p' : Picked = record p { ep_list = p.ep_list ++ e ∷ [] } in
      elim (loop-Picks p' ds h) [
        | inl k ↦ inl (
            taken p p' (endpoint e) ds (λ x. x) refl (λ body. refl)
              (λ body. append_assoc p.ep_list (e ∷ []) (endpoints body)) k)
        | inr (n, k) ↦ inr (n, past (endpoint e) ds tt k)
      ]
  loop-Picks p (unknown_descriptor l k ∷ ds) h = elim (loop-Picks p ds h) [
    | inl at ↦
        inl (taken p p (unknown_descriptor l k) ds (λ x. x) refl (λ body. refl) (λ body. refl) at)
    | inr (n, at) ↦ inr (n, past (unknown_descriptor l k) ds tt at)
  ]

pub picked-IsPick :
    (ds : List UsbDescriptor) (t : ℕ × ℕ × ℕ) (c : ConfigDescriptor) (i : InterfaceDescriptor)
    (es : List EndpointDescriptor)
    → pick_interface_with_triple ds t ≡ some (c, i, es)
    → IsPick t ds c i es
unfolding pick_interface_with_triple
picked-IsPick ds t c i es h =
    elim (loop-Picks t c i es (record { config = none; interface = none; ep_list = [] }) ds h) [
      | inl k ↦ absurd (none-ne-some c k.begun)
      | inr (n, k) ↦ k
    ]
