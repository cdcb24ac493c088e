-- ===== src/Readiness.antt =====
-- frontend/src/features/documents/retrievalReadiness.ts and scopeReadiness.ts: how far a document
-- has come on the way to search and Ask, and the counts over the documents of a scope.
-- `toLocaleString` stands in `description` as a parameter.
pub mod Laws
pub mod Scope
mod Examples
use folium.Base.{
  ℕ, ◌+◌, String, Bool, true, false, not, ◌&&◌, ◌||◌, Option, none, some, List, [], ◌∷◌, ltb, leb,
  eqb, if◌then◌else◌, get_or, is_some, is_truthy, length, any, min,
}
use folium.Base.Text.{◌&◌, show}
use folium.Percent.{Percent}
use folium.Types.{Document, ProcessingStatus, is_processing, InboxStatus, is_inbox}

pub data RetrievalReadiness : Type 0 where
  preparing review_required ready_to_process indexing embedding keyword_ready semantic_ready failed
        partial :
      RetrievalReadiness

abbrev key_tag : RetrievalReadiness → ℕ
key_tag preparing = 0
key_tag review_required = 1
key_tag ready_to_process = 2
key_tag indexing = 3
key_tag embedding = 4
key_tag keyword_ready = 5
key_tag semantic_ready = 6
key_tag failed = 7
key_tag partial = 8

-- `readiness === key`
abbrev pub is_key : RetrievalReadiness → RetrievalReadiness → Bool
is_key k l = eqb (key_tag k) (key_tag l)

pub data Tone : Type 0 where
  muted warning danger accent success : Tone

pub record ReadinessInfo : Type 0 where
  pub key : RetrievalReadiness
  pub label : String
  pub description : String
  pub tone : Tone

-- The table `INFO`, with its key beside each row.
unfoldable pub info_of : RetrievalReadiness → ReadinessInfo
info_of preparing = record {
  key = preparing;
  label = "Preparing";
  description = "Text extraction or OCR is still running.";
  tone = muted;
}
info_of review_required = record {
  key = review_required;
  label = "Needs review";
  description = "Inbox metadata needs confirmation before processing.";
  tone = warning;
}
info_of ready_to_process = record {
  key = ready_to_process;
  label = "Ready to process";
  description = "Preflight is complete. Process from Inbox to index for RAG.";
  tone = accent;
}
info_of indexing = record {
  key = indexing;
  label = "Indexing";
  description = "Final chunk indexing has not finished yet.";
  tone = muted;
}
info_of embedding = record {
  key = embedding;
  label = "Embedding";
  description = "Chunks are indexed; semantic embeddings are still running.";
  tone = muted;
}
info_of keyword_ready = record {
  key = keyword_ready;
  label = "Keyword ready";
  description = "Indexed for keyword retrieval. Semantic embeddings are not available yet.";
  tone = accent;
}
info_of semantic_ready = record {
  key = semantic_ready;
  label = "Semantic ready";
  description = "Indexed and embedded for hybrid keyword + semantic retrieval.";
  tone = success;
}
info_of failed = record {
  key = failed;
  label = "Failed";
  description = "Processing failed. Retry from Inbox or Jobs.";
  tone = danger;
}
info_of partial = record {
  key = partial;
  label = "Partial";
  description = "Processing completed with gaps. Some chunks may lack embeddings.";
  tone = warning;
}

pub record EmbeddingProgress : Type 0 where
  pub total : ℕ
  pub embedded : ℕ
  pub failed : ℕ
  pub percent : Option ℕ

unfoldable pub get_embedding_progress : Percent → Document → EmbeddingProgress
get_embedding_progress p doc =
    let total = get_or doc.chunks_total 0 in
    let embedded = get_or doc.chunks_embedded 0 in
    record {
      total = total;
      embedded = embedded;
      failed = get_or doc.chunks_failed 0;
      percent = if ltb 0 total then some (min 100 (p.percent embedded total)) else none;
    }

unfoldable pub is_embedding_in_progress : Document → Bool
is_embedding_in_progress doc =
    let total = get_or doc.chunks_total 0 in
    let embedded = get_or doc.chunks_embedded 0 in
    if not doc.document_indexed || doc.has_embeddings
    then false
    else if is_truthy doc.embedding_error
    then false
    else if ltb 0 total && ltb embedded total
    then true
    else ltb 0 total || is_some doc.embedding_started_at

unfoldable pub get_retrieval_readiness : Document → RetrievalReadiness
unfolding is_embedding_in_progress
get_retrieval_readiness doc =
    if is_processing doc.processing_status ProcessingStatus.failed
    then failed
    else if is_processing doc.processing_status ProcessingStatus.partial
    then partial
    else if is_processing doc.processing_status ProcessingStatus.pending
        || is_processing doc.processing_status ProcessingStatus.processing
        || not doc.text_extracted
    then preparing
    else if doc.inbox
    then (if is_inbox doc.inbox_status InboxStatus.failed
        then failed
        else if doc.needs_review || is_inbox doc.inbox_status InboxStatus.needs_review
        then review_required
        else if is_inbox doc.inbox_status InboxStatus.ready
        then ready_to_process
        else preparing)
    else if not doc.document_indexed
    then indexing
    else if doc.has_embeddings && eqb (get_or doc.chunks_failed 0) 0
    then semantic_ready
    else if doc.has_embeddings && ltb 0 (get_or doc.chunks_failed 0)
    then partial
    else if is_embedding_in_progress doc
    then embedding
    else keyword_ready

unfoldable pub get_readiness_info : Percent → (ℕ → String) → Document → ReadinessInfo
unfolding info_of get_embedding_progress
get_readiness_info p to_locale doc =
    let info = info_of (get_retrieval_readiness doc) in
    let progress = get_embedding_progress p doc in
    if is_key info.key embedding
    then elim progress.percent [
      | none ↦ info
      | some percent ↦
          if ltb 0 progress.total
          then record info {
            label = "Embedding " & (show percent & "%");
            description =
                "Embedded "
                & (to_locale progress.embedded
                    & (" of " & (to_locale progress.total & " chunks.")));
          }
          else info
    ]
    else info

unfoldable pub is_unprocessed_document : Document → Bool
is_unprocessed_document doc =
    let readiness = get_retrieval_readiness doc in
    is_key readiness preparing
    || is_key readiness review_required
    || is_key readiness ready_to_process
    || is_key readiness indexing
    || is_key readiness embedding
    || is_key readiness failed
    || is_key readiness partial

unfoldable pub can_ask_document : Document → Bool
can_ask_document doc = doc.document_indexed || doc.has_embeddings

unfoldable pub document_needs_processing_poll : Document → Bool
document_needs_processing_poll doc =
    let readiness = get_retrieval_readiness doc in
    is_key readiness indexing || is_key readiness embedding

unfoldable pub documents_need_processing_poll : List Document → Bool
documents_need_processing_poll docs = any document_needs_processing_poll docs

pub record ScopeReadinessSummary : Type 0 where
  pub total : ℕ
  pub ask_ready : ℕ
  pub keyword_ready : ℕ
  pub semantic_ready : ℕ
  pub unavailable : ℕ
  pub label : String

-- One round of the loop in `summarizeScopeReadiness`.
count_document : ScopeReadinessSummary → Document → ScopeReadinessSummary
count_document s doc =
    let readiness = get_retrieval_readiness doc in
    let asked = if can_ask_document doc then record s { ask_ready = s.ask_ready + 1 } else s in
    if is_key readiness RetrievalReadiness.semantic_ready
    then record asked { semantic_ready = s.semantic_ready + 1 }
    else if is_key readiness RetrievalReadiness.keyword_ready
        || is_key readiness RetrievalReadiness.embedding
    then record asked { keyword_ready = s.keyword_ready + 1 }
    else record asked { unavailable = s.unavailable + 1 }

count_from : ScopeReadinessSummary → List Document → ScopeReadinessSummary
count_from s [] = s
count_from s (doc ∷ docs) = count_from (count_document s doc) docs

unfoldable pub summarize_scope_readiness : List Document → String → ScopeReadinessSummary
unfolding count_from count_document
summarize_scope_readiness docs label =
    count_from
      (record {
        total = length docs;
        ask_ready = 0;
        keyword_ready = 0;
        semantic_ready = 0;
        unavailable = 0;
        label = label;
      })
      docs
