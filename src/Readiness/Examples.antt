-- ===== src/Readiness/Examples.antt =====
-- Documents at several stages.
use folium.Base.{◌≡◌, refl, ◌↔◌, true, some, List, [], ◌∷◌}
use folium.Base.Text.{show}
use folium.Percent.{exact}
use folium.Types.{Document, blank_document, InboxStatus}
use folium.Readiness.{
  embedding, semantic_ready, review_required, get_embedding_progress, get_retrieval_readiness,
  get_readiness_info, is_unprocessed_document, can_ask_document, summarize_scope_readiness,
}
use folium.Readiness.Laws.{Reads, readiness_iff}
use folium.Readiness.Scope.{Counts, summarize_scope_readiness-Counts}

readiness : Unit {0}
unfolding get_retrieval_readiness get_embedding_progress is_unprocessed_document can_ask_document
    get_readiness_info summarize_scope_readiness show
readiness = tt

abbrev half_embedded : Document
half_embedded = record blank_document {
  document_indexed = true;
  chunks_total = some 8;
  chunks_embedded = some 4;
}

abbrev searchable : Document
searchable = record blank_document { document_indexed = true; has_embeddings = true }

abbrev waiting : Document
waiting = record blank_document { inbox = true; inbox_status = some InboxStatus.needs_review }

keys :
    (get_retrieval_readiness half_embedded ≡ embedding)
    × (get_retrieval_readiness searchable ≡ semantic_ready)
    × (get_retrieval_readiness waiting ≡ review_required)
    × ((get_readiness_info exact show half_embedded).label ≡ "Embedding 50%")
unfolding readiness
keys = (refl, refl, refl, refl)

readiness_iff_example :
    (get_retrieval_readiness half_embedded ≡ embedding) ↔ Reads half_embedded embedding
readiness_iff_example = readiness_iff half_embedded embedding

abbrev both : List Document
both = half_embedded ∷ searchable ∷ waiting ∷ []

summarize_scope_readiness-Counts_example :
    Counts
      (record {
        total = 3;
        ask_ready = 0;
        keyword_ready = 0;
        semantic_ready = 0;
        unavailable = 0;
        label = "all";
      })
      (summarize_scope_readiness both "all")
      both
summarize_scope_readiness-Counts_example = summarize_scope_readiness-Counts both "all"
