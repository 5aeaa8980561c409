-- ===== src/WpMetadata.antt =====
-- include/wpcpp/metadata.h and src/metadata.cpp: the metadata object of WirePlumber. A call of
-- `wp_metadata_set` is an effect. A thread that does not own the main context hands its call to the
-- main loop and waits until it has run, so that the call is made by the time the function returns;
-- the locks are left out, and so is a wake-up without a notification, which ends the wait too early.
use pmx.Base.{
  Bool, true, false, List, [], ◌∷◌, Option, none, some, Text, codes, text_eq, if◌then◌else◌,
}

-- `subject` 0, the key, the type and the value; `none` is a null pointer, which clears the key.
pub record MetadataSet : Type 0 where
  pub key : Text
  pub type : Text
  pub value : Option Text

abbrev pub json_type : Text
json_type = codes "Spa:String:JSON"

unfoldable pub set_metadata_value_async : Text → Text → List MetadataSet
set_metadata_value_async key value = record { key = key; type = json_type; value = some value } ∷ []

-- The flag is `g_main_context_is_owner`: the call is made at once or in the main loop.
unfoldable pub set_metadata_value : Bool → Text → Text → List MetadataSet
set_metadata_value true key value = record { key = key; type = json_type; value = some value } ∷ []
set_metadata_value false key value = record { key = key; type = json_type; value = some value } ∷ []

unfoldable pub clear_metadata_value : Text → List MetadataSet
clear_metadata_value key = record { key = key; type = json_type; value = none } ∷ []

-- The loop over the iterator of WirePlumber.
unfoldable pub get_metadata_values : List (Text × Text) → List (Text × Text)
get_metadata_values [] = []
get_metadata_values ((key, value) ∷ items) = (key, value) ∷ get_metadata_values items

-- An object that WirePlumber announces: its handle, and the name among its global properties.
pub record MetadataObject (H : Type 0) : Type 0 where
  pub handle : H
  pub global_properties : Option (Option Text)

-- `metadata_added_callback`: the handle that is kept, from the one before.
unfoldable pub metadata_added_callback : {H : Type 0} → MetadataObject H → Option H → Option H
metadata_added_callback object kept = elim object.global_properties [
  | none ↦ kept
  | some none ↦ kept
  | some (some name) ↦ if text_eq name (codes "performance-mixer") then some object.handle else kept
]
