-- ===== src/Readiness/Scope.antt =====
-- What `summarizeScopeReadiness` counts.
use folium.Base.{
  true, length-filter-le, ℕ, ◌+◌, ◌≤◌, ◌≡◌, ◌||◌, String, List, [], ◌∷◌, arith, length, filter,
}
use folium.Types.{Document}
use folium.Readiness.{
  RetrievalReadiness, is_key, get_retrieval_readiness, can_ask_document, ScopeReadinessSummary,
  count_document, count_from, summarize_scope_readiness,
}

-- How many documents have a key.
abbrev pub count_key : RetrievalReadiness → List Document → ℕ
count_key k docs = length (filter (λ doc. is_key (get_retrieval_readiness doc) k) docs)

-- The summary's counts, each by its meaning.
pub record Counts (s t : ScopeReadinessSummary) (docs : List Document) : Type 0 where
  pub total : t.total ≡ s.total
  pub label : t.label ≡ s.label
  pub asked : t.ask_ready ≡ s.ask_ready + length (filter can_ask_document docs)
  pub semantic :
      t.semantic_ready ≡ s.semantic_ready + count_key RetrievalReadiness.semantic_ready docs
  pub keyword :
      t.keyword_ready
      ≡ s.keyword_ready
        + count_key RetrievalReadiness.keyword_ready docs
        + count_key RetrievalReadiness.embedding docs
  pub parts :
      t.semantic_ready + t.keyword_ready + t.unavailable
      ≡ s.semantic_ready + s.keyword_ready + s.unavailable + length docs

count_document-Counts :
    (s : ScopeReadinessSummary) (doc : Document) → Counts s (count_document s doc) (doc ∷ [])
unfolding count_document
count_document-Counts s doc = ground arith

count_from-Counts :
    (s : ScopeReadinessSummary) (docs : List Document) → Counts s (count_from s docs) docs
unfolding count_from
count_from-Counts s [] = ground arith
count_from-Counts s (doc ∷ docs) =
    ground (arith, count_document-Counts s doc, count_from-Counts (count_document s doc) docs)

-- The summary counts the documents by their readiness: `total` is how many there are, `ask_ready`
-- those that can be asked about, `semantic_ready` and `keyword_ready` those with such a key (a
-- document that is being embedded counts as keyword ready), and `unavailable` all the others.
pub summarize_scope_readiness-Counts :
    (docs : List Document) (label : String)
    → Counts
        (record {
          total = length docs;
          ask_ready = 0;
          keyword_ready = 0;
          semantic_ready = 0;
          unavailable = 0;
          label = label;
        })
        (summarize_scope_readiness docs label)
        docs
unfolding summarize_scope_readiness
summarize_scope_readiness-Counts docs label = count_from-Counts _ docs

key-can_ask :
    (doc : Document)
    → (is_key (get_retrieval_readiness doc) RetrievalReadiness.semantic_ready
        || is_key (get_retrieval_readiness doc) RetrievalReadiness.keyword_ready
        || is_key (get_retrieval_readiness doc) RetrievalReadiness.embedding)
      ≡ true
    → can_ask_document doc ≡ true
unfolding can_ask_document get_retrieval_readiness
key-can_ask doc h = ground arith

searchable-le-ask :
    (docs : List Document)
    → count_key RetrievalReadiness.semantic_ready docs
        + count_key RetrievalReadiness.keyword_ready docs
        + count_key RetrievalReadiness.embedding docs
      ≤ length (filter can_ask_document docs)
searchable-le-ask [] = omega arith
searchable-le-ask (doc ∷ docs) = ground (arith, searchable-le-ask docs, key-can_ask doc)

-- Of the documents in a scope no more are searchable, by keyword or by meaning, than can be asked
-- about, and no more can be asked about than there are.
pub searchable-le-ask_ready :
    (docs : List Document) (label : String)
    → ((summarize_scope_readiness docs label).semantic_ready
          + (summarize_scope_readiness docs label).keyword_ready
        ≤ (summarize_scope_readiness docs label).ask_ready)
      × ((summarize_scope_readiness docs label).ask_ready ≤ length docs)
searchable-le-ask_ready docs label =
    let c = summarize_scope_readiness-Counts docs label in
    omega (
      arith,
      searchable-le-ask docs,
      c.semantic,
      c.keyword,
      c.asked,
      length-filter-le can_ask_document docs,
    )
