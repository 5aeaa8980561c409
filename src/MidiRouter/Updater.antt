-- ===== src/MidiRouter/Updater.antt =====
-- The thread of src/applications/midi_router.cpp that stores the router's choices.
use pmx.Base.{
  ◌≡◌, refl, ap, subst, ◌∙◌, arith, List, [], ◌∷◌, ◌++◌, Option, some, Text, codes, text_eq,
  if◌then◌else◌, returns, All,
}
use pmx.Properties.{
  Property, PropertyValue, int_value, string_value, as_int, as_string, get_from_collection,
}
use pmx.MidiRouter.Processor.{
  QueueMessage, Router, last_message, store_message, store_queue, update_parameter_values,
}
use pmx.MidiRouter.Invariant.{IsChoice, IsConfigured, IsRouter}

-- What pwcpp says of `update`: a parameter that is there has the new value, the others keep theirs.
pub record IsUpdate {R : Type 0}
    (update : Text → PropertyValue R → List (Property R) → List (Property R)) : Type 1 where
  pub get_update :
      {A B : Type 0} (as_a : PropertyValue R → Option A) (as_b : PropertyValue R → Option B)
      (k j : Text) (v : PropertyValue R) (ps : List (Property R)) (a : Option A)
      → get_from_collection as_a k ps ≡ returns a
      → get_from_collection as_b j (update k v ps)
        ≡ (if text_eq k j then returns (as_b v) else get_from_collection as_b j ps)

-- The names of the three parameters.
abbrev layer_name : Text
layer_name = codes "activeLayer"

abbrev base_name : Text
base_name = codes "baseChannelId"

abbrev selected_name : Text
selected_name = codes "selectedChannelId"

-- The parameters hold exactly what the message says.
abbrev pub Holds : {R : Type 0} → QueueMessage → List (Property R) → Type 0
Holds m ps =
    (get_from_collection as_string layer_name ps ≡ returns (some m.layer))
    × (get_from_collection as_int base_name ps ≡ returns (some m.base_channel_id))
    × (get_from_collection as_int selected_name ps ≡ returns (some m.selected_channel_id))

last_message-IsChoice :
    (m : QueueMessage) (queue : List QueueMessage)
    → IsChoice m
    → All IsChoice queue
    → IsChoice (last_message m queue)
unfolding last_message
last_message-IsChoice m [] h k = h
last_message-IsChoice m (next ∷ queue) h k = last_message-IsChoice next queue k.0 k.1

last_message-append :
    (m0 : QueueMessage) (q0 queue : List QueueMessage) (m : QueueMessage)
    → m0 ∷ q0 ≡ queue ++ m ∷ []
    → last_message m0 q0 ≡ m
unfolding last_message
last_message-append m0 [] [] m e = cc
last_message-append m0 [] (x ∷ []) m e = cc
last_message-append m0 [] (x ∷ y ∷ queue) m e = cc
last_message-append m0 (n ∷ q0) [] m e = cc
last_message-append m0 (n ∷ q0) (x ∷ queue) m e =
    let tails : n ∷ q0 ≡ queue ++ m ∷ [] = cc in last_message-append n q0 queue m tails

not_empty : (m : QueueMessage) (queue : List QueueMessage) → ¬ ([] ≡ queue ++ m ∷ [])
not_empty m [] e = cc
not_empty m (x ∷ queue) e = cc

Holds-IsConfigured :
    {R : Type 0} {m : QueueMessage} {ps : List (Property R)}
    → Holds m ps
    → IsChoice m
    → IsConfigured ps
Holds-IsConfigured (l, b, s) c = record {
  layer = (c.layer.0, l ∙ ap (λ t. returns (some t)) c.layer.1);
  base = (_, b, c.base);
  selected = (_, s, c.selected);
}

module _ {R : Type 0} {update : Text → PropertyValue R → List (Property R) → List (Property R)}
    (u : IsUpdate update) where
  store_message-Holds :
      (m : QueueMessage) (ps : List (Property R))
      → IsConfigured ps
      → Holds m (store_message update m ps)
  store_message-Holds m ps h =
      let p1 = update layer_name (string_value m.layer) ps in
      let p2 = update base_name (int_value m.base_channel_id) p1 in
      let l = h.layer.1 in
      let b1 =
        u.get_update as_string as_int layer_name base_name (string_value m.layer) ps _ l
        ∙ h.base.1 in
      let s1 =
        u.get_update as_string as_int layer_name selected_name (string_value m.layer) ps _ l
        ∙ h.selected.1 in
      let l1 =
        u.get_update as_string as_string layer_name layer_name (string_value m.layer) ps _ l in
      let l2 =
        u.get_update as_int as_string base_name layer_name (int_value m.base_channel_id) p1 _ b1
        ∙ l1 in
      let b2 =
        u.get_update as_int as_int base_name base_name (int_value m.base_channel_id) p1 _ b1 in
      let s2 =
        u.get_update as_int as_int base_name selected_name (int_value m.base_channel_id) p1 _ b1
        ∙ s1 in
      let v = int_value m.selected_channel_id in
      (
        u.get_update as_int as_string selected_name layer_name v p2 _ s2 ∙ l2,
        u.get_update as_int as_int selected_name base_name v p2 _ s2 ∙ b2,
        u.get_update as_int as_int selected_name selected_name v p2 _ s2,
      )

  abbrev RoundOutcome : List QueueMessage → Router R → Type 0
  RoundOutcome before r =
      IsRouter r
      × (r.queue ≡ [])
      × ((m : QueueMessage) (queue : List QueueMessage)
          → before ≡ queue ++ m ∷ []
          → Holds m r.parameters)

  store_queue-outcome :
      (queue : List QueueMessage) (r : Router R)
      → r.queue ≡ queue
      → IsConfigured r.parameters
      → All IsChoice queue
      → RoundOutcome queue (store_queue update queue r)
  store_queue-outcome [] r e h k = (
    record { configured = h; choices = rw e tt; bounded = rw e (omega arith) },
    e,
    λ m queue p. absurd (not_empty m queue p),
  )
  store_queue-outcome (m ∷ queue) r e h k =
      let last = last_message m queue in
      let holds = store_message-Holds last r.parameters h in
      let choice = last_message-IsChoice m queue k.0 k.1 in
      (
        record {
          configured = Holds-IsConfigured holds choice;
          choices = tt;
          bounded = omega arith;
        },
        refl,
        λ n before p.
            subst (λ k. Holds k (store_message update last r.parameters))
              (last_message-append m queue before n p) holds,
      )

  round : (r : Router R) → IsRouter r → RoundOutcome r.queue (update_parameter_values update r)
  unfolding update_parameter_values
  round r h = store_queue-outcome r.queue r refl h.configured h.choices

  -- With an `update` as pwcpp promises it, one round of the thread over a queue in range that is not empty leaves an empty queue, parameters
  -- that hold the message that was queued last, and a router in range.
  pub update_parameter_values-outcome :
      (r : Router R) (before : List QueueMessage) (m : QueueMessage)
      → IsRouter r
      → r.queue ≡ before ++ m ∷ []
      → IsRouter (update_parameter_values update r)
        × ((update_parameter_values update r).queue ≡ [])
        × Holds m (update_parameter_values update r).parameters
  update_parameter_values-outcome r before m h e =
      let (router, empty, holds) = round r h in (router, empty, holds m before e)
