-- ===== src/Forms/Replies.antt =====
-- The schemas of what the services send, web-ui/src/lib/schemas/auth.ts, device.ts and event.ts. The
-- interface never runs them: they give the types to which it casts each body.
use asset_tracker.Prelude.{Bool, true, false, ◌&&◌, List, [], ◌∷◌, String, truthy}
use asset_tracker.Node.Value.{Value, undefined, null, text, object, Fields, lookup_field}

-- `z.string()`, `z.string().min(1)` and `z.string().nullable().optional()`.
pub data Shape : Type 0 where
  any_text some_text nullish_text : Shape

abbrev pub ReplySchema : Type 0
ReplySchema = List (String × Shape)

abbrev pub token_response_schema : ReplySchema
token_response_schema = ("token", any_text) ∷ []

abbrev pub error_response_schema : ReplySchema
error_response_schema = ("error", any_text) ∷ []

abbrev pub device_schema : ReplySchema
device_schema =
    ("id", any_text) ∷ ("name", some_text) ∷ ("type", any_text) ∷ ("createdAt", any_text) ∷ []

abbrev pub event_schema : ReplySchema
event_schema =
    ("id", any_text)
    ∷ ("type", any_text)
    ∷ ("deviceId", any_text)
    ∷ ("name", any_text)
    ∷ ("timestamp", any_text)
    ∷ ("actor", nullish_text)
    ∷ ("description", nullish_text)
    ∷ []

-- The values that a shape stands for, as the types that zod infers from it say.
abbrev pub fits_shape : Shape → Value → Bool
fits_shape any_text (text s) = true
fits_shape some_text (text s) = truthy s
fits_shape nullish_text (text s) = true
fits_shape nullish_text null = true
fits_shape nullish_text undefined = true
fits_shape _ _ = false

abbrev pub fits_fields : ReplySchema → Fields → Bool
fits_fields [] fs = true
fits_fields ((k, shape) ∷ schema) fs = fits_shape shape (lookup_field k fs) && fits_fields schema fs

-- An object with more fields fits as well.
abbrev pub fits_schema : ReplySchema → Value → Bool
fits_schema schema (object fs) = fits_fields schema fs
fits_schema schema v = false
