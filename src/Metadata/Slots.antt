-- ===== src/Metadata/Slots.antt =====
-- What one event does to one channel of src/applications/metadata_manager.cpp.
use pmx.Base.{
  true, ℕ, suc, ◌+◌, ◌%◌, ◌<◌, ◌≡◌, refl, ap, arith, true, List, [], ◌∷◌, ◌++◌, Option, none, some,
  Text, to_string, stoi-to_string, length, get_elem?, set, pos, returns,
}
use pmx.Metadata.{update, port_prefix, group_prefix, at_channel, handle_event}

get_elem?-append :
    {A : Type 0} (front back : List A) (x : A)
    → get_elem? (front ++ x ∷ back) (length front) ≡ some x
get_elem?-append [] back x = refl
get_elem?-append (f ∷ front) back x = get_elem?-append front back x

at_channel-suc :
    {A : Type 0} (xs : List A) (i : ℕ) (x : A)
    → get_elem? xs i ≡ some x
    → at_channel xs (pos (suc i)) ≡ returns (i, x)
at_channel-suc xs i x e = ground arith

at_channel-append :
    {A : Type 0} (front back : List A) (x : A)
    → at_channel (front ++ x ∷ back) (pos (length front + 1)) ≡ returns (length front, x)
at_channel-append front back x =
    let e : length front + 1 ≡ suc (length front) = omega arith in
    rw e (at_channel-suc (front ++ x ∷ back) (length front) x (get_elem?-append front back x))

set-append :
    {A : Type 0} (front back : List A) (x y : A)
    → set (front ++ x ∷ back) (length front) y ≡ front ++ y ∷ back
set-append [] back x y = refl
set-append (f ∷ front) back x y = ap (◌∷◌ f) (set-append front back x y)

-- An update of the port of a channel without one, and of a channel's group.
pub handle_port :
    (front back : List (Option Text)) (groups : List ℕ) (port : Text)
    → length front < 1000
    → handle_event
        (record { input_channels = front ++ none ∷ back; input_channel_groups = groups })
        (update (port_prefix ++ to_string (length front + 1)) port)
      ≡ returns (
        record { input_channels = front ++ some port ∷ back; input_channel_groups = groups },
        true,
      )
unfolding handle_event
handle_port front back groups port small =
    rw
      (
        stoi-to_string (length front + 1) (omega arith),
        at_channel-append front back none,
        set-append front back none (some port),
      )
      refl

pub handle_group :
    (channels : List (Option Text)) (front back : List ℕ) (old new : ℕ)
    → length front < 1000
    → new < 256
    → handle_event
        (record { input_channels = channels; input_channel_groups = front ++ old ∷ back })
        (update (group_prefix ++ to_string (length front + 1)) (to_string new))
      ≡ returns
          (record { input_channels = channels; input_channel_groups = front ++ new ∷ back }, true)
unfolding handle_event
handle_group channels front back old new small byte =
    let cut : new % 256 ≡ new = omega arith in
    rw
      (
        stoi-to_string (length front + 1) (omega arith),
        stoi-to_string new (omega arith),
        at_channel-append front back old,
        cut,
        set-append front back old new,
      )
      refl
