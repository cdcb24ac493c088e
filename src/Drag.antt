-- ===== src/Drag.antt =====
-- frontend/src/features/documents/documentDrag.ts: the ids of the documents that are dragged.
-- A `DataTransfer` is the list of its formats with their data; `JSON` is a parameter.
mod Examples
use folium.Base.{
  ◌≡◌, refl, sym, ap, ◌∙◌, String, Bool, true, false, not, ◌&&◌, ◌||◌, Option, none, some, List, [],
  ◌∷◌, ◌==◌, if◌then◌else◌, get_or, is_filled, is_some, map, filter, arith, Bool-cases, inl, inr,
}
use folium.Base.Sets.{has}
use folium.Query.{Params, get, set}
use folium.Query.Written.{get-set}

-- What `JSON.parse` makes of a text; an element of an array that is not a text is `none`.
pub data Parsed : Type 0 where
  throws other : Parsed
  array : List (Option String) → Parsed

-- A list of texts that was written is read again, and what is written is not empty.
pub record Json : Type 0 where
  pub stringify : List String → String
  pub parse : String → Parsed
  pub parse-stringify : (ids : List String) → parse (stringify ids) ≡ array (map some ids)
  pub stringify_filled : (ids : List String) → is_filled (stringify ids) ≡ true

-- `activeDocumentDragIds`, and the data of the drag.
pub record Drag : Type 0 where
  pub active_ids : Option (List String)
  pub transfer : Params
  pub effect_allowed : String

abbrev pub folium_document_ids : String
folium_document_ids = "application/x-folium-document-ids"

abbrev pub get_data : String → Params → String
get_data format transfer = get_or (get format transfer) ""

abbrev texts_of : List (Option String) → List String
texts_of [] = []
texts_of (none ∷ items) = texts_of items
texts_of (some s ∷ items) = s ∷ texts_of items

abbrev ids_of : Parsed → List String
ids_of throws = []
ids_of other = []
ids_of (array items) = filter is_filled (texts_of items)

abbrev is_empty : List String → Bool
is_empty [] = true
is_empty _ = false

unfoldable pub clear_document_drag_data : Drag → Drag
clear_document_drag_data d = record d { active_ids = none }

-- `none` is a transfer that is not there.
unfoldable pub data_transfer_has_documents : Option (List String) → Option Params → Bool
data_transfer_has_documents active_ids transfer =
    if not (is_empty (get_or active_ids []))
    then true
    else elim transfer [ none ↦ false | some t ↦ has folium_document_ids (map (λ e. e.0) t) ]

module _ (json : Json) where
  unfoldable pub set_document_drag_data : List String → Drag → Drag
  set_document_drag_data document_ids d = record {
    active_ids = some document_ids;
    transfer =
        set "text/plain" (json.stringify document_ids)
          (set folium_document_ids (json.stringify document_ids) d.transfer);
    effect_allowed = "move";
  }

  abbrev raw_of : Params → String
  raw_of t =
      if is_filled (get_data folium_document_ids t)
      then get_data folium_document_ids t
      else get_data "text/plain" t

  unfoldable pub get_document_drag_ids : Option (List String) → Option Params → List String
  get_document_drag_ids active_ids transfer =
      if not (is_empty (get_or active_ids [])) then get_or active_ids [] else elim transfer [
        | none ↦ []
        | some t ↦ if is_filled (raw_of t) then ids_of (json.parse (raw_of t)) else []
      ]

  texts_of-some : (ids : List String) → texts_of (map some ids) ≡ ids
  texts_of-some [] = refl
  texts_of-some (s ∷ ids) = ap (λ t. s ∷ t) (texts_of-some ids)

  abbrev written : List String → Params → Params
  written ids t =
      set "text/plain" (json.stringify ids) (set folium_document_ids (json.stringify ids) t)

  folium_data :
      (ids : List String) (t : Params)
      → get_data folium_document_ids (written ids t) ≡ json.stringify ids
  folium_data ids t =
      rw
        (
          get-set folium_document_ids "text/plain" (json.stringify ids)
              (set folium_document_ids (json.stringify ids) t),
          get-set folium_document_ids folium_document_ids (json.stringify ids) t,
        )
        refl

  raw_of-written : (ids : List String) (t : Params) → raw_of (written ids t) ≡ json.stringify ids
  raw_of-written ids t = rw (folium_data ids t, json.stringify_filled ids) refl

  read_again :
      (ids : List String) (t : Params)
      → (if is_filled (raw_of (written ids t))
          then ids_of (json.parse (raw_of (written ids t)))
          else [])
        ≡ filter is_filled ids
  read_again ids t =
      rw
        (
          raw_of-written ids t,
          json.stringify_filled ids,
          json.parse-stringify ids,
          texts_of-some ids,
        )
        refl

  -- Documents that are dragged arrive as they were set while the drag is known; in another window,
  -- or once it was cleared, those ids arrive that are not empty.
  pub get_document_drag_ids_lem :
      (ids : List String) (d : Drag)
      → (get_document_drag_ids
            (set_document_drag_data ids d).active_ids
            (some (set_document_drag_data ids d).transfer)
          ≡ (if is_empty ids then [] else ids))
        × (get_document_drag_ids
              (clear_document_drag_data (set_document_drag_data ids d)).active_ids
              (some (clear_document_drag_data (set_document_drag_data ids d)).transfer)
            ≡ filter is_filled ids)
  unfolding get_document_drag_ids set_document_drag_data clear_document_drag_data
  get_document_drag_ids_lem [] d = (read_again [] d.transfer, read_again [] d.transfer)
  get_document_drag_ids_lem (id ∷ ids) d = (refl, read_again (id ∷ ids) d.transfer)
