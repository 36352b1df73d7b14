-- ===== src/Enumeration/Fill.antt =====
-- The input context that `address_device` sends, field by field.
use original_os_with_rust.Prelude.{
  ℕ, ◌/◌, ◌^◌, ◌<◌, ◌≡◌, inl, inr, refl, arith, ap, sym, ◌∙◌, subst, true, ◌&&◌, ltb, ltb→lt,
  Bool-cases, replicate, bad_argument, Result, ok, err, ◌>>=◌, ◌∷◌,
}
use original_os_with_rust.Volatile.Fields.{
  replace_field, field-replace_self, field-replace_ne, replace_field-lt,
}
use original_os_with_rust.Xhci.Port.{port_speed, max_packet_size}
use original_os_with_rust.Xhci.Context.{
  InputContext, DeviceContext, EndpointContext, UsbMode, new_endpoint, unknown, full_speed,
  low_speed, high_speed, super_speed, psi, new_control_endpoint, add_context,
  set_root_hub_port_number, set_last_valid_dci, set_port_speed, set_ep_ctx, clear_and_set,
}
use original_os_with_rust.Xhci.Context.Fields.{
  clear_and_set_lem, IsControl, new_control_endpoint-IsControl,
}
use original_os_with_rust.Enumeration.Contexts.{
  default_device, context_for_port, with_speed, with_endpoint,
}
use original_os_with_rust.Enumeration.Order.{IsAddressContext}

then-ok :
    {A B : Type 0} (r : Result A) (next : A → Result B) (b : B)
    → (r >>= next) ≡ ok b
    → (a : A) × (r ≡ ok a) × (next a ≡ ok b)
then-ok (ok a) next b h = (a, refl, h)
then-ok (err e) next b h = absurd cc

ok-injective : {A : Type 0} (a b : A) → ok a ≡ ok b → a ≡ b
ok-injective a b h = cc

-- The context before the port is read.
abbrev for_port : ℕ → DeviceContext
for_port port = record default_device {
  slot_ctx0 = replace_field 27 5 1 0;
  slot_ctx1 = replace_field 16 8 port 0;
}

context_for_port-made :
    (port : ℕ)
    → (ltb 0 port && ltb port 256) ≡ true
    → port < 256
    → context_for_port port
      ≡ ok (record {
        input_ctrl_ctx = record { drop_context_bitmap = 0; add_context_bitmap = 3 };
        device_ctx = for_port port;
      })
unfolding context_for_port add_context set_root_hub_port_number set_last_valid_dci
context_for_port-made port fits small = rw fits (
    rw
      (
        clear_and_set_lem 0 16 8 port (omega arith) (omega arith) (omega arith)
            (omega (arith, small)),
        clear_and_set_lem 0 27 5 1 (omega arith) (omega arith) (omega arith) (omega arith),
      )
      refl)

context_for_port-ok :
    (port : ℕ) (c : InputContext)
    → context_for_port port ≡ ok c
    → (port < 256)
      × (c ≡ record {
        input_ctrl_ctx = record { drop_context_bitmap = 0; add_context_bitmap = 3 };
        device_ctx = for_port port;
      })
unfolding context_for_port add_context set_root_hub_port_number set_last_valid_dci
context_for_port-ok port c h = elim (Bool-cases (ltb 0 port && ltb port 256)) [
  | inl fits ↦
      let small : (0 < port) × (port < 256) = ground arith in
      (small.1, ok-injective _ _ (sym h ∙ context_for_port-made port fits small.1))
  | inr over ↦ let failed : context_for_port port ≡ err bad_argument = rw over refl in absurd cc
]

abbrev size_of : UsbMode → Result ℕ
size_of full_speed = ok 8
size_of low_speed = ok 8
size_of high_speed = ok 64
size_of super_speed = ok 512
size_of (unknown v) = err bad_argument

size_of-lt : (m : UsbMode) (size : ℕ) → size_of m ≡ ok size → size < 2 ^ 12
size_of-lt full_speed size e = omega (arith, ok-injective _ _ e)
size_of-lt low_speed size e = omega (arith, ok-injective _ _ e)
size_of-lt high_speed size e = omega (arith, ok-injective _ _ e)
size_of-lt super_speed size e = omega (arith, ok-injective _ _ e)
size_of-lt (unknown v) size e = absurd cc

-- The packet sizes of the four speeds.
packet_size-lt : (value size : ℕ) → max_packet_size value ≡ ok size → size < 2 ^ 12
unfolding max_packet_size
packet_size-lt value size h = size_of-lt (port_speed value) size h

cleared : (x : ℕ) → x < 2 ^ 32 → clear_and_set x 0xf 20 0 ≡ replace_field 20 4 0 x
cleared x h = clear_and_set_lem x 20 4 0 (omega arith) (omega arith) h (omega arith)

-- The speed that is set does not reach the word's other fields.
with_speed-ok :
    (c c' : InputContext) (value : ℕ)
    → c.device_ctx.slot_ctx0 < 2 ^ 32
    → with_speed c value ≡ ok c'
    → c' ≡ record c {
      device_ctx = record c.device_ctx { slot_ctx0 = replace_field 20 4 0 c.device_ctx.slot_ctx0 };
    }
unfolding with_speed set_port_speed
with_speed-ok c c' value word h = elim (Bool-cases (ltb (psi (port_speed value)) 16)) [
  | inl fits ↦
      let small : psi (port_speed value) < 16 = ltb→lt _ _ fits in
      let shifted : psi (port_speed value) / 1048576 ≡ 0 = omega (arith, small) in
      ok-injective _ _ (sym h ∙ rw (fits, shifted, cleared c.device_ctx.slot_ctx0 word) refl)
  | inr over ↦ let failed : with_speed c value ≡ err bad_argument = rw over refl in absurd cc
]

with_endpoint-ok :
    (c c' : InputContext) (value ring : ℕ)
    → ring < 2 ^ 64
    → with_endpoint c value ring ≡ ok c'
    → (size : ℕ) × (ep : EndpointContext) × (max_packet_size value ≡ ok size)
      × IsControl ep size ring
      × (set_ep_ctx c 1 ep ≡ ok c')
unfolding with_endpoint
with_endpoint-ok c c' value ring small h =
    let (size, e, rest) = then-ok (max_packet_size value) _ c' h in
    let (ep, made, control) =
      new_control_endpoint-IsControl size ring (packet_size-lt value size e) small in
    let (ep', same, set_it) = then-ok (new_control_endpoint size ring) _ c' rest in
    (
      size,
      ep,
      e,
      control,
      subst (λ x. set_ep_ctx c 1 x ≡ ok c') (ok-injective _ _ (sym same ∙ made)) set_it,
    )

-- The context with its speed cleared, and with its endpoint.
abbrev sped : ℕ → InputContext
sped port = record {
  input_ctrl_ctx = record { drop_context_bitmap = 0; add_context_bitmap = 3 };
  device_ctx = record (for_port port) { slot_ctx0 = replace_field 20 4 0 (replace_field 27 5 1 0) };
}

abbrev filled : ℕ → EndpointContext → InputContext
filled port ep = record (sped port) {
  device_ctx = record (sped port).device_ctx { ep_ctx = ep ∷ replicate 30 new_endpoint };
}

abbrev slow : InputContext → InputContext
slow x = record x {
  device_ctx = record x.device_ctx { slot_ctx0 = replace_field 20 4 0 x.device_ctx.slot_ctx0 };
}

sped-ok :
    (port value : ℕ) (c c1 : InputContext)
    → c ≡ record {
      input_ctrl_ctx = record { drop_context_bitmap = 0; add_context_bitmap = 3 };
      device_ctx = for_port port;
    }
    → with_speed c value ≡ ok c1
    → c1 ≡ sped port
sped-ok port value c c1 same h =
    with_speed-ok c c1 value
      (subst (λ x. x.device_ctx.slot_ctx0 < 2 ^ 32) (sym same)
        (replace_field-lt 32 27 5 1 0 (omega arith) (omega arith) (omega arith)))
      h
    ∙ ap slow same

filled-ok :
    (port : ℕ) (ep : EndpointContext) (c1 c2 : InputContext)
    → c1 ≡ sped port
    → set_ep_ctx c1 1 ep ≡ ok c2
    → c2 ≡ filled port ep
unfolding set_ep_ctx
filled-ok port ep c1 c2 same h = ok-injective _ _ (sym h ∙ ap (λ x. set_ep_ctx x 1 ep) same)

-- The context that is filled in without an error.
pub context_for_port-IsAddressContext :
    (port ring speed size : ℕ) (c c1 c2 : InputContext)
    → ring < 2 ^ 64
    → context_for_port port ≡ ok c
    → with_speed c speed ≡ ok c1
    → with_endpoint c1 size ring ≡ ok c2
    → IsAddressContext port ring c2
context_for_port-IsAddressContext port ring speed size c c1 c2 small e0 e1 e2 =
    let (fits, same) = context_for_port-ok port c e0 in
    let (bytes, ep, sized, control, stored) = with_endpoint-ok c1 c2 size ring small e2 in
    subst (IsAddressContext port ring)
      (sym (filled-ok port ep c1 c2 (sped-ok port speed c c1 same e1) stored))
      (record {
        added = refl;
        dropped = refl;
        root_hub_port = field-replace_self 16 8 port 0 (omega (arith, fits));
        no_speed = field-replace_self 20 4 0 (replace_field 27 5 1 0) (omega arith);
        last_dci =
            field-replace_ne 20 4 27 5 0 (replace_field 27 5 1 0) (omega arith) (inl (omega arith))
            ∙ field-replace_self 27 5 1 0 (omega arith);
        endpoint = (ep, replicate 30 new_endpoint, size, bytes, refl, sized, control);
      })
