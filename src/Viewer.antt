-- ===== src/Viewer.antt =====
-- frontend/src/components/viewer/DocumentViewer.tsx: the loading of the document that is shown, with
-- the object URLs and PDF proxies that it makes and gives up, its page, and its zoom. Drawing on the
-- canvas is not modelled. `fetch`, `URL` and pdf.js are the browser's and a package's: an event is
-- what they answer.
pub mod Fresh
pub mod Laws
pub mod Bounds
mod Examples
use folium.Base.{
  ℕ, suc, ◌+◌, ◌-◌, min, max, String, Bool, true, false, not, ◌&&◌, ◌||◌, ◌==◌, Option, none, some,
  List, [], ◌∷◌, ◌++◌, if◌then◌else◌, eqb, leb, is_filled, get_or, is_some, filter, remove_at,
  get_elem?,
}
use folium.Base.Text.{◌&◌, show, starts_with}

-- One run of the effect that loads a document; `parsing` is its second half, for a PDF. `number`
-- tells the runs apart.
pub record Flight : Type 0 where
  pub number : ℕ
  pub doc_id : String
  pub mime : String
  pub parsing : Bool

-- An object URL or a PDF proxy, by the run that made it and the document it holds.
pub record Resource : Type 0 where
  pub number : ℕ
  pub doc_id : String

-- `run` is the number of the run that is not cancelled; `urls` and `proxies` hold what was made and
-- has not been revoked or destroyed.
pub record Viewer : Type 0 where
  pub run : ℕ
  pub doc_id : Option String
  pub external_page : Option ℕ
  pub page : ℕ
  pub total_pages : ℕ
  pub zoom : ℕ
  pub loading : Bool
  pub error : Option String
  pub pdf : Option Resource
  pub pdf_ref : Option Resource
  pub fallback_url : Option Resource
  pub page_changes : List ℕ
  pub flights : List Flight
  pub urls : List Resource
  pub proxies : List Resource

abbrev pub mounted : Viewer
mounted = record {
  run = 0;
  doc_id = none;
  external_page = none;
  page = 1;
  total_pages = 1;
  zoom = 100;
  loading = false;
  error = none;
  pdf = none;
  pdf_ref = none;
  fallback_url = none;
  page_changes = [];
  flights = [];
  urls = [];
  proxies = [];
}

pub data Answer : Type 0 where
  failed : (message : Option String) → Answer
  refused : (status : ℕ) → Answer
  buffer : Answer
  parse_failed : Answer
  proxy : (num_pages : ℕ) → Answer

pub data Event : Type 0 where
  document_changed : (doc_id mime : String) → Event
  document_gone unmounted : Event
  page_given : Option ℕ → Event
  answered : (index : ℕ) → Answer → Event
  previous_pressed next_pressed zoom_in_pressed zoom_out_pressed : Event

abbrev pub is_pdf : String → Bool
is_pdf mime = mime == "application/pdf"

unfoldable pub is_image : String → Bool
is_image mime = starts_with "image/" mime

unfoldable pub is_text_file : String → Bool
is_text_file mime =
    starts_with "text/" mime || mime == "application/json" || mime == "text/markdown"

-- `revokeObjectURL` and `destroy`
abbrev pub without_run : ℕ → List Resource → List Resource
without_run n rs = filter (λ (r : Resource). not (eqb r.number n)) rs

abbrev pub destroyed : Option Resource → List Resource → List Resource
destroyed none rs = rs
destroyed (some r) rs = without_run r.number rs

-- The cleanup of the effect: the run that was current is cancelled.
unfoldable pub clean_up : Viewer → Viewer
clean_up v = record v {
  run = suc v.run;
  pdf_ref = none;
  proxies = destroyed v.pdf_ref v.proxies;
  urls = without_run v.run v.urls;
}

-- What the effect sets at its start.
abbrev pub start_over : Option String → Viewer → Viewer
start_over doc_id v = record v {
  doc_id = doc_id;
  pdf_ref = none;
  proxies = destroyed v.pdf_ref v.proxies;
  pdf = none;
  fallback_url = none;
  error = none;
  total_pages = 1;
  page = 1;
}

unfoldable pub load : String → String → Viewer → Viewer
load doc_id mime v =
    let w = start_over (some doc_id) v in
    if not (is_filled doc_id) || not (is_filled mime)
    then w
    else if not (is_pdf mime) && not (is_image mime) && not (is_text_file mime)
    then record w { loading = false }
    else record w {
      loading = true;
      flights =
          w.flights
          ++ record { number = w.run; doc_id = doc_id; mime = mime; parsing = false } ∷ [];
    }

abbrev pub resource_of : Flight → Resource
resource_of f = record { number = f.number; doc_id = f.doc_id }

-- A run that is not cancelled, behind its request, and then behind pdf.js. An answer that does not fit
-- the stage does not come.
unfoldable pub take : (parsing : Bool) → Answer → Flight → Viewer → Viewer
take false (failed message) f v = record v {
  error = some (get_or message "Failed to load document");
  loading = false;
}
take false (refused status) f v = record v {
  error = some ("Failed to download file (" & (show status & ")"));
  loading = false;
}
take false buffer f v =
    let there = record v { urls = v.urls ++ resource_of f ∷ [] } in
    if is_pdf f.mime
    then record there { flights = v.flights ++ record f { parsing = true } ∷ [] }
    else record there { fallback_url = some (resource_of f); loading = false }
take true parse_failed f v = record v { fallback_url = some (resource_of f); loading = false }
take true (proxy num_pages) f v = record v {
  proxies = v.proxies ++ resource_of f ∷ [];
  pdf_ref = some (resource_of f);
  pdf = some (resource_of f);
  total_pages = num_pages;
  fallback_url = some (resource_of f);
  loading = false;
}
take parsing answer f v = v

-- The run behind an `await`; `v` no longer holds its flight. A proxy that comes to a run that has been
-- cancelled is destroyed at once.
unfoldable pub resume : Flight → Answer → Viewer → Viewer
resume f answer v = if not (eqb f.number v.run) then v else take f.parsing answer f v

unfoldable pub settle : Option Flight → ℕ → Answer → Viewer → Viewer
settle none index answer v = v
settle (some f) index answer v = resume f answer (record v { flights = remove_at index v.flights })

abbrev pub current_page : Viewer → ℕ
current_page v = get_or v.external_page v.page

unfoldable pub go_to_page : ℕ → Viewer → Viewer
go_to_page p v =
    let next = max 1 (min v.total_pages p) in
    record v { page = next; page_changes = v.page_changes ++ next ∷ [] }

-- The buttons are there with a PDF only, and disabled at the ends. With the viewer its state goes; what
-- is left of a run that it has cancelled goes on.
unfoldable pub react : Event → Viewer → Viewer
react (document_changed doc_id mime) v = load doc_id mime (clean_up v)
react document_gone v = start_over none (clean_up v)
react unmounted v = record (clean_up v) { doc_id = none; fallback_url = none; pdf = none }
react (page_given none) v = record v { external_page = none }
react (page_given (some p)) v = record v { external_page = some p; page = p }
react (answered index answer) v = settle (get_elem? v.flights index) index answer v
react previous_pressed v =
    if is_some v.pdf && not (leb (current_page v) 1) then go_to_page (current_page v - 1) v else v
react next_pressed v =
    if is_some v.pdf && not (leb v.total_pages (current_page v))
    then go_to_page (current_page v + 1) v
    else v
react zoom_in_pressed v = if is_some v.pdf then record v { zoom = min 200 (v.zoom + 10) } else v
react zoom_out_pressed v = if is_some v.pdf then record v { zoom = max 50 (v.zoom - 10) } else v

unfoldable pub run_all : List Event → Viewer → Viewer
run_all [] v = v
run_all (e ∷ es) v = run_all es (react e v)
