-- ===== src/Share.antt =====
-- frontend/src/lib/shareDocument.ts: a document is shared by the system, or downloaded.
-- The network and the browser are parameters.
mod Examples
use folium.Base.{
  ℕ, ◌≡◌, refl, String, Bool, true, false, not, ◌&&◌, ◌||◌, Option, none, some, if◌then◌else◌,
  get_or, is_filled, is_some, arith,
}
use folium.Base.Text.{◌&◌, show}

pub record ShareDocumentInput : Type 0 where
  pub id : String
  pub title : Option String
  pub original_filename : String
  pub mime_type : Option String

pub data ShareDocumentResult : Type 0 where
  shared downloaded cancelled : ShareDocumentResult
  failure : (message : String) → ShareDocumentResult

-- A request that failed has the message of an `Error`, or none; the blob of an answer may not be
-- readable either.
pub data Fetched : Type 0 where
  no_answer : (message : Option String) → Fetched
  refused : (status : ℕ) → Fetched
  blob : (type : String) → Fetched

pub record File : Type 0 where
  pub filename : String
  pub type : String

pub data Sharing : Type 0 where
  accepted aborted broken : Sharing

-- `can_share` is `none` where the browser has no such function or it throws; `download` is the
-- message of an exception that `triggerDownload` throws.
pub record Browser : Type 0 where
  pub fetch : String → Fetched
  pub can_share : File → Option Bool
  pub share : String → File → Sharing
  pub download : String → Option (Option String)

abbrev pub filled_or : String → String → String
filled_or s other = if is_filled s then s else other

abbrev pub filename_of : ShareDocumentInput → String
filename_of doc = filled_or doc.original_filename "document"

abbrev pub file_of : ShareDocumentInput → String → File
file_of doc blob_type = record {
  filename = filename_of doc;
  type = filled_or (get_or doc.mime_type "") (filled_or blob_type "application/octet-stream");
}

module _ (browser : Browser) where
  -- `triggerDownload` and its handler
  abbrev pub download_file : String → ShareDocumentResult
  download_file filename = elim (browser.download filename) [
    | none ↦ downloaded
    | some message ↦ failure (get_or message "Failed to download document")
  ]

  -- `canShareFiles`
  abbrev pub can_share_files : File → Bool
  can_share_files file = get_or (browser.can_share file) false

  abbrev offered : ShareDocumentInput → File → ShareDocumentResult
  offered doc file = elim (browser.share (filled_or (get_or doc.title "") file.filename) file) [
    | accepted ↦ shared
    | aborted ↦ cancelled
    | broken ↦ download_file file.filename
  ]

  abbrev handed : ShareDocumentInput → Fetched → ShareDocumentResult
  handed doc (no_answer message) = failure (get_or message "Failed to fetch document")
  handed doc (refused status) = failure ("Failed to fetch document (" & (show status & ")"))
  handed doc (blob type) =
      if can_share_files (file_of doc type)
      then offered doc (file_of doc type)
      else download_file (filename_of doc)

  unfoldable pub share_document : ShareDocumentInput → ShareDocumentResult
  share_document doc = handed doc (browser.fetch ("/api/documents/" & (doc.id & "/download")))

  abbrev pub is_downloaded : ShareDocumentResult → Bool
  is_downloaded downloaded = true
  is_downloaded r = false

  abbrev pub is_failure : ShareDocumentResult → Bool
  is_failure (failure message) = true
  is_failure r = false

  abbrev pub is_fetched : Fetched → Bool
  is_fetched (blob type) = true
  is_fetched f = false

  abbrev settles : Sharing → Bool
  settles broken = false
  settles s = true

  -- The browser can share the file, and the user has shared it or turned it down.
  abbrev pub is_settled : ShareDocumentInput → Fetched → Bool
  is_settled doc (blob type) =
      can_share_files (file_of doc type)
      && settles
          (browser.share (filled_or (get_or doc.title "") (filename_of doc)) (file_of doc type))
  is_settled doc f = false

  handed_lem :
      (doc : ShareDocumentInput) (f : Fetched)
      → (is_downloaded (handed doc f) ≡ (
          (is_fetched f && not (is_settled doc f))
          && not (is_some (browser.download (filename_of doc)))))
        × (is_failure (handed doc f) ≡ (
            not (is_fetched f)
            || (not (is_settled doc f) && is_some (browser.download (filename_of doc)))))
  handed_lem doc f = ground arith

  -- The file is downloaded exactly if it was fetched, the system does not take it or fails to, and
  -- the download works; an error is reported exactly if it was not fetched, or the system does not
  -- take it and the download fails.
  pub share_document_lem :
      (doc : ShareDocumentInput)
      → (is_downloaded (share_document doc) ≡ (
          (is_fetched (browser.fetch ("/api/documents/" & (doc.id & "/download")))
            && not (is_settled doc (browser.fetch ("/api/documents/" & (doc.id & "/download")))))
          && not (is_some (browser.download (filename_of doc)))))
        × (is_failure (share_document doc) ≡ (
            not (is_fetched (browser.fetch ("/api/documents/" & (doc.id & "/download"))))
            || (not (is_settled doc (browser.fetch ("/api/documents/" & (doc.id & "/download"))))
                && is_some (browser.download (filename_of doc)))))
  unfolding share_document
  share_document_lem doc =
      handed_lem doc (browser.fetch ("/api/documents/" & (doc.id & "/download")))
