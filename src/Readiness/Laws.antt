-- ===== src/Readiness/Laws.antt =====
-- When `getRetrievalReadiness` gives each of its keys, and what the predicates built on it mean.
use folium.Base.{
  ℕ, String, ◌≤◌, ◌<◌, ◌≡◌, refl, ◌↔◌, ◌⊎◌, ◌≢◌, true, false, none, some, arith, get_or, min, ltb,
  ◌&&◌, if◌then◌else◌, is_truthy,
}
use folium.Base.Text.{◌&◌, show}
use folium.Percent.{Percent}
use folium.Types.{Document, ProcessingStatus, InboxStatus}
use folium.Readiness.{
  is_key, RetrievalReadiness, preparing, review_required, ready_to_process, indexing, embedding,
  keyword_ready, semantic_ready, failed, partial, get_embedding_progress, get_retrieval_readiness,
  is_unprocessed_document, can_ask_document, document_needs_processing_poll, get_readiness_info,
  info_of,
}

-- The backend's processing ended well, and there is text.
abbrev IsExtracted : Document → Type 0
IsExtracted doc = (doc.processing_status ≡ ProcessingStatus.ready) × (doc.text_extracted ≡ true)

-- Extracted, and still in the inbox.
abbrev IsWaiting : Document → Type 0
IsWaiting doc = IsExtracted doc × (doc.inbox ≡ true)

-- Extracted, out of the inbox, and indexed.
abbrev IsIndexed : Document → Type 0
IsIndexed doc = IsExtracted doc × (doc.inbox ≡ false) × (doc.document_indexed ≡ true)

-- What each key says of a document, without the order in which the code tests.
abbrev pub Reads : Document → RetrievalReadiness → Type 0
Reads doc failed =
    (doc.processing_status ≡ ProcessingStatus.failed)
    ⊎ (IsWaiting doc × (doc.inbox_status ≡ some InboxStatus.failed))
Reads doc partial =
    (doc.processing_status ≡ ProcessingStatus.partial)
    ⊎ (IsIndexed doc × (doc.has_embeddings ≡ true) × (0 < get_or doc.chunks_failed 0))
Reads doc preparing =
    (doc.processing_status ≡ ProcessingStatus.pending)
    ⊎ (doc.processing_status ≡ ProcessingStatus.processing)
    ⊎ ((doc.processing_status ≡ ProcessingStatus.ready) × (doc.text_extracted ≡ false))
    ⊎ (IsWaiting doc
        × (doc.needs_review ≡ false)
        × ((doc.inbox_status ≡ none) ⊎ (doc.inbox_status ≡ some InboxStatus.preparing)))
Reads doc review_required =
    IsWaiting doc
    × (doc.inbox_status ≢ some InboxStatus.failed)
    × ((doc.needs_review ≡ true) ⊎ (doc.inbox_status ≡ some InboxStatus.needs_review))
Reads doc ready_to_process =
    IsWaiting doc × (doc.needs_review ≡ false) × (doc.inbox_status ≡ some InboxStatus.ready)
Reads doc indexing = IsExtracted doc × (doc.inbox ≡ false) × (doc.document_indexed ≡ false)
Reads doc embedding =
    IsIndexed doc
    × (doc.has_embeddings ≡ false)
    × (is_truthy doc.embedding_error ≡ false)
    × ((0 < get_or doc.chunks_total 0) ⊎ (doc.embedding_started_at ≢ none))
Reads doc keyword_ready =
    IsIndexed doc
    × (doc.has_embeddings ≡ false)
    × ((is_truthy doc.embedding_error ≡ true)
        ⊎ ((get_or doc.chunks_total 0 ≡ 0) × (doc.embedding_started_at ≡ none)))
Reads doc semantic_ready =
    IsIndexed doc × (doc.has_embeddings ≡ true) × (get_or doc.chunks_failed 0 ≡ 0)

Reads-of_readiness :
    (doc : Document) (k : RetrievalReadiness) → get_retrieval_readiness doc ≡ k → Reads doc k
unfolding get_retrieval_readiness
Reads-of_readiness doc failed e = ground arith
Reads-of_readiness doc k e = ground arith

readiness_of_Reads :
    (doc : Document) (k : RetrievalReadiness) → Reads doc k → get_retrieval_readiness doc ≡ k
unfolding get_retrieval_readiness
readiness_of_Reads doc failed r = ground arith
readiness_of_Reads doc k r = ground arith

-- Every document has exactly one key, and it is the key whose description in `Reads` holds of the
-- document.
pub readiness_iff :
    (doc : Document) (k : RetrievalReadiness) → (get_retrieval_readiness doc ≡ k) ↔ Reads doc k
readiness_iff doc k = (Reads-of_readiness doc k, readiness_of_Reads doc k)

-- A document that does not count as unprocessed can be asked about.
pub can_ask-unprocessed :
    (doc : Document) → is_unprocessed_document doc ≡ false → can_ask_document doc ≡ true
unfolding is_unprocessed_document can_ask_document get_retrieval_readiness
can_ask-unprocessed doc h = ground arith

-- A document that is polled counts as unprocessed.
pub unprocessed-needs_poll :
    (doc : Document)
    → document_needs_processing_poll doc ≡ true
    → is_unprocessed_document doc ≡ true
unfolding document_needs_processing_poll is_unprocessed_document
unprocessed-needs_poll doc h = ground arith

-- A percentage is shown only where there are chunks, and it never passes 100.
pub percent-le_100 :
    (p : Percent) (doc : Document) {q : ℕ}
    → (get_embedding_progress p doc).percent ≡ some q
    → (0 < get_or doc.chunks_total 0) × (q ≤ 100)
unfolding get_embedding_progress
percent-le_100 p doc e = ground arith

-- Once every chunk of a document that has chunks is embedded, the progress shows 100.
pub percent_full :
    (p : Percent) (doc : Document)
    → 0 < get_or doc.chunks_total 0
    → get_or doc.chunks_total 0 ≤ get_or doc.chunks_embedded 0
    → (get_embedding_progress p doc).percent ≡ some 100
unfolding get_embedding_progress
percent_full p doc h k = ground (
  arith,
  p.percent_full (get_or doc.chunks_total 0) h,
  p.percent_mono _ (get_or doc.chunks_embedded 0) _ h k,
)

key_lem : (k : RetrievalReadiness) → (info_of k).key ≡ k
unfolding info_of
key_lem preparing = refl
key_lem k = refl

-- The info of a document has the document's key and the tone of its row in the table. Its label is
-- the row's too, but for a document with chunks that is being embedded: that label shows the
-- percentage.
pub get_readiness_info_lem :
    (p : Percent) (to_locale : ℕ → String) (doc : Document)
    → ((get_readiness_info p to_locale doc).key ≡ get_retrieval_readiness doc)
      × ((get_readiness_info p to_locale doc).tone ≡ (info_of (get_retrieval_readiness doc)).tone)
      × ((get_readiness_info p to_locale doc).label ≡ (
          if is_key (get_retrieval_readiness doc) embedding && ltb 0 (get_or doc.chunks_total 0)
          then "Embedding "
            & (show (min 100 (p.percent (get_or doc.chunks_embedded 0) (get_or doc.chunks_total 0)))
                & "%")
          else (info_of (get_retrieval_readiness doc)).label))
unfolding get_readiness_info
get_readiness_info_lem p to_locale doc = (
  ground (arith, key_lem (get_retrieval_readiness doc)),
  ground (arith, key_lem (get_retrieval_readiness doc)),
  ground (arith, key_lem (get_retrieval_readiness doc)),
)
