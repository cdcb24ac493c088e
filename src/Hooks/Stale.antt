-- ===== src/Hooks/Stale.antt =====
-- What is marked to be fetched again after a request that changes documents or folders.
use folium.Base.{
  ◌==◌, arith, ◌≡◌, refl, ap, ◌∙◌, String, Bool, true, false, not, ◌&&◌, ◌||◌, some, List, [], ◌∷◌,
  is_some, if◌then◌else◌, arith, Bool-cases, inl, inr,
}
use folium.Types.{Document}
use folium.Hooks.{Part, begins_with, is_key, Data, document_data, document_key}
use folium.Hooks.Cache.{
  QueryClient, perform, perform_one, any_begins, invalidate_each, data_of-perform, is_stale-perform,
}
use folium.Hooks.Folders.{FolderMutation, create_folder, update_folder, folder_success}
use folium.Hooks.{words, AskConversation, conversation_data, ask_conversation_key}
use folium.Hooks.Documents.{
  new_ask_conversation_success, clear_ask_conversation_success, ask_document_success,
  cleared_conversation,
}
use folium.Hooks.Documents.{
  DocumentQuery, folder_documents, document_query_key, DocumentMutation, move_document,
  trash_document, restore_document, bulk_action, process_inbox_documents, upload_document,
  writes_answer, document_invalidates, document_success,
}

-- Lists of folders are fetched again behind the mutation; an update of the metadata, which may have a
-- `folder_id`, is not among them.
abbrev pub refreshes_folders : DocumentMutation → Bool
refreshes_folders (move_document id body) = true
refreshes_folders (trash_document id) = true
refreshes_folders (restore_document id) = true
refreshes_folders (bulk_action body) = true
refreshes_folders (process_inbox_documents body) = true
refreshes_folders upload_document = true
refreshes_folders m = false

-- The query lists the documents of a folder.
abbrev pub is_folder_listing : DocumentQuery → Bool
is_folder_listing (folder_documents folder_id params) = true
is_folder_listing q = false

of_documents :
    (m : DocumentMutation) (doc : Document) (q : DocumentQuery)
    → any_begins (document_invalidates m doc) (document_query_key q)
      ≡ not (is_folder_listing q) || refreshes_folders m
unfolding any_begins document_invalidates document_query_key begins_with
of_documents m doc q = ground arith

-- The folder mutation may change what is in the trash.
abbrev pub moves : FolderMutation → Bool
moves (create_folder body) = false
moves (update_folder id body) = false
moves m = true

of_folders :
    (m : FolderMutation) (k : List Part)
    → any_begins (folder_success m) k
      ≡ begins_with ("folders" ∷ []) k
        || (moves m && (begins_with ("documents" ∷ []) k || begins_with ("trash" ∷ []) k))
unfolding any_begins folder_success
of_folders m k = ground arith

or_lem : (a b : Bool) → a || b ≡ (if a then true else b)
or_lem true b = refl
or_lem false b = refl

module _ {C : Type 0} (qc : QueryClient C) where
  -- After a document mutation, the data of a query is the answer where the mutation writes it and the
  -- query is that of the answered document, and as before elsewhere.
  pub data_of-document_success :
      (m : DocumentMutation) (doc : Document) (c : C) (k : List Part)
      → qc.data_of (perform qc (document_success m doc) c) k ≡ (
          if writes_answer m && is_key (document_key doc.id) k
          then some (document_data doc)
          else qc.data_of c k)
  unfolding document_success perform perform_one
  data_of-document_success m doc c k = elim (Bool-cases (writes_answer m)) [
    | inl e ↦ rw e (
        data_of-perform qc (document_invalidates m doc)
          (qc.set (document_key doc.id) (document_data doc) c) k
        ∙ qc.data_of-set (document_key doc.id) (document_data doc) c k)
    | inr e ↦ rw e (data_of-perform qc (document_invalidates m doc) c k)
  ]

  still_there :
      (ws : List String) (d : Data) (c : C) (k : List Part)
      → is_some (qc.data_of c k) ≡ true
      → is_some (qc.data_of (qc.set ws d c) k) ≡ true
  still_there ws d c k h = rw (qc.data_of-set ws d c k) (ground arith)

  stale_after :
      (m : DocumentMutation) (doc : Document) (c : C) (k : List Part)
      → is_some (qc.data_of c k) ≡ true
      → any_begins (document_invalidates m doc) k ≡ true
      → qc.is_stale (perform qc (document_success m doc) c) k ≡ true
  unfolding document_success perform perform_one
  stale_after m doc c k h b = elim (Bool-cases (writes_answer m)) [
    | inl e ↦ rw e (
        is_stale-perform qc (document_invalidates m doc)
          (qc.set (document_key doc.id) (document_data doc) c) k
          (still_there (document_key doc.id) (document_data doc) c k h)
        ∙ rw b refl)
    | inr e ↦ rw e (is_stale-perform qc (document_invalidates m doc) c k h ∙ rw b refl)
  ]

  -- What is written into the cache is under no key of a list of a folder.
  stale_set :
      (doc : Document) (c : C) (q : DocumentQuery)
      → is_folder_listing q ≡ true
      → qc.is_stale (qc.set (document_key doc.id) (document_data doc) c) (document_query_key q)
        ≡ qc.is_stale c (document_query_key q)
  unfolding document_query_key is_key
  stale_set doc c (folder_documents folder_id params) h =
      qc.is_stale-set (document_key doc.id) (document_data doc) c
        (document_query_key (folder_documents folder_id params))
  stale_set doc c q h = ground (arith, h)

  -- A list of a folder is marked for a mutation that invalidates it, and as before for others.
  stale_listing :
      (m : DocumentMutation) (doc : Document) (c : C) (q : DocumentQuery)
      → is_some (qc.data_of c (document_query_key q)) ≡ true
      → is_folder_listing q ≡ true
      → qc.is_stale (perform qc (document_success m doc) c) (document_query_key q)
        ≡ any_begins (document_invalidates m doc) (document_query_key q)
          || qc.is_stale c (document_query_key q)
  unfolding document_success perform perform_one
  stale_listing m doc c q h listed = elim (Bool-cases (writes_answer m)) [
    | inl e ↦ rw e (
        is_stale-perform qc (document_invalidates m doc)
          (qc.set (document_key doc.id) (document_data doc) c) (document_query_key q)
          (still_there (document_key doc.id) (document_data doc) c (document_query_key q) h)
        ∙ ap (λ b. any_begins (document_invalidates m doc) (document_query_key q) || b)
            (stale_set doc c q listed))
    | inr e ↦ rw e (is_stale-perform qc (document_invalidates m doc) c (document_query_key q) h)
  ]

  -- After any document mutation, a query of documents that the cache holds is marked to be fetched again,
  -- be it a list, a document, a text or a conversation, but a list of a folder only after a move, the
  -- trash, a restoration, an action on several documents, the processing of the inbox or an upload. After any
  -- other mutation, an update of the metadata included, although that may have a new folder, a list of a
  -- folder is marked only if it was before.
  pub document_success-stale :
      (m : DocumentMutation) (doc : Document) (c : C) (q : DocumentQuery)
      → is_some (qc.data_of c (document_query_key q)) ≡ true
      → qc.is_stale (perform qc (document_success m doc) c) (document_query_key q) ≡ (
          if not (is_folder_listing q) || refreshes_folders m
          then true
          else qc.is_stale c (document_query_key q))
  document_success-stale m doc c q h =
      let k = document_query_key q in
      let begins = of_documents m doc q in
      elim (Bool-cases (is_folder_listing q)) [
        | inr other ↦
            rw other
              (stale_after m doc c k h (begins ∙ ap (λ b. not b || refreshes_folders m) other))
        | inl listed ↦
            stale_listing m doc c q h listed
            ∙ rw (begins, listed) (or_lem (refreshes_folders m) (qc.is_stale c k))
      ]

  -- A folder mutation keeps all data, and marks a cached query exactly if its key begins with
  -- `folders`, or the mutation may change the trash and the key begins with `documents` or `trash`;
  -- what was marked stays so.
  pub folder_success-stale :
      (m : FolderMutation) (c : C) (k : List Part)
      → is_some (qc.data_of c k) ≡ true
      → (qc.data_of (perform qc (invalidate_each (folder_success m)) c) k ≡ qc.data_of c k)
        × (qc.is_stale (perform qc (invalidate_each (folder_success m)) c) k ≡ (
            (begins_with ("folders" ∷ []) k
              || (moves m && (begins_with ("documents" ∷ []) k || begins_with ("trash" ∷ []) k)))
            || qc.is_stale c k))
  folder_success-stale m c k h = (
    data_of-perform qc (folder_success m) c k,
    is_stale-perform qc (folder_success m) c k h ∙ ap (λ b. b || qc.is_stale c k) (of_folders m k),
  )

  -- A conversation that is begun anew or cleared replaces that of its document in the cache, and no
  -- other; an answer to a question changes none.
  pub data_of-conversations :
      (document_id other : String) (answer : AskConversation) (c : C)
      → (qc.data_of
            (perform qc (new_ask_conversation_success document_id answer) c)
            (words (ask_conversation_key other))
          ≡ (if document_id == other
              then some (conversation_data answer)
              else qc.data_of c (words (ask_conversation_key other))))
        × (qc.data_of
              (perform qc (clear_ask_conversation_success document_id) c)
              (words (ask_conversation_key other))
            ≡ (if document_id == other
                then some (conversation_data (cleared_conversation document_id))
                else qc.data_of c (words (ask_conversation_key other))))
        × (qc.data_of
              (perform qc (ask_document_success document_id) c)
              (words (ask_conversation_key other))
            ≡ qc.data_of c (words (ask_conversation_key other)))
  unfolding perform perform_one new_ask_conversation_success clear_ask_conversation_success
      ask_document_success is_key
  data_of-conversations document_id other answer c =
      let ws = ask_conversation_key document_id in
      let k = words (ask_conversation_key other) in
      let same : is_key ws k ≡ (document_id == other) = ground arith in
      (
        qc.data_of-set ws (conversation_data answer) c k ∙ rw same refl,
        qc.data_of-set ws (conversation_data (cleared_conversation document_id)) c k ∙ rw same refl,
        qc.data_of-invalidate ws c k,
      )
