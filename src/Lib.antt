-- ===== src/Lib.antt =====
-- Folium's web client: the functions of frontend/src that decide what a document's state means, which
-- documents and folders an action is for, what is asked of the server and of its answers, and what
-- an upload, an acceptance or a question has done.
--
-- Parts and files, each named with the code it models:
--   Types       the fields of frontend/src/lib/api/types.ts that the other parts read
--   Readiness   features/documents/retrievalReadiness.ts and scopeReadiness.ts: the state of a
--               document for search and questions, and the counts of a scope
--   Selection   features/documents/documentSelection.ts and useDocumentSelectionModel.ts: the
--               focused row, the anchor and the selected set, and every handler that changes them
--   Folders     components/documents/MoveToFolderDialog.tsx: collectFolderAndDescendantIds, and the
--               folders that can be chosen (Folders/Moves); the dialogs of
--               components/folders/FolderTree.tsx (Folders/Tree)
--   UploadTree  lib/uploadTree.ts: the files of a drop or of a file list, with their paths
--   Upload      lib/api/upload.ts and features/inbox/sessionRejections.ts: a batch, its summary,
--               its rejection rows and its message
--   Inbox       features/inbox: stages of preparation (inboxPreparingPhases.ts), actions
--               (inboxReviewActions.ts), overview (inboxPresentation.ts, in Inbox/Metrics), filing
--               (formatMeta.ts, suggestionAcceptFilter.ts, acceptAllSuggestions.ts, inboxAiFiling.ts
--               in Inbox/Filing), and suggestion jobs
--               (suggestionJobStatus.ts, in Inbox/Jobs); the page that reviews and files them
--               (InboxWorkView.tsx, in Inbox/Work)
--   Library     features/documents/useDocumentsLibraryState.ts: the state of the library page in the
--               query string of its address, and what the server is asked for it
--               (Library/Requests, with documentParamsToQuery of lib/api/hooks.ts); the page
--               itself (DocumentsPage.tsx, in Library/Page), and its former addresses
--               (LegacyDocumentsRedirect.tsx, in Library/Legacy)
--   Client      lib/api/client.ts and lib/csrf.ts: requests, answers, errors and the token
--   Hooks       lib/api/hooks.ts: the keys of queries (Hooks), the hooks of folders, trash and tags
--               (Hooks/Folders), of documents, conversations and suggestions (Hooks/Documents), of
--               the session (Hooks/Auth), and of accounts, users, AI providers, jobs, logs and
--               backups (Hooks/Settings; all of them together in
--               Hooks/Mutations); the query client is the interface of Hooks/Cache
--   Ask         components/ask: the conversation about a document (DocumentAskPanel.tsx, in
--               Ask/Conversation), single questions about a scope (AIChatPanel.tsx, in Ask/Chat),
--               and the citations in an answer (MarkdownResponse.tsx, in Ask/Citations)
--   Drag        features/documents/documentDrag.ts: the ids of dragged documents
--   Share       lib/shareDocument.ts: sharing by the system, or a download
--   Settings    components/settings: the administration of users (UsersSettings.tsx, in
--               Settings/Users, with its editor of quotas and the amounts of lib/utils.ts in
--               Settings/Storage), the own profile (ProfileSettings.tsx, in Settings/Profile), the
--               tags (features/settings/LibraryPage.tsx, in Settings/Tags) and the model of a
--               workload (features/settings/ai/AssignmentDialog.tsx, in Settings/Models)
--   Trash       features/trash/TrashPage.tsx: what is shown, the selection and its handlers
--   Viewer      components/viewer/DocumentViewer.tsx: loading, pages and zoom
--   Routes      App.tsx, features/auth/AuthGuard.tsx and features/settings/SettingsLayout.tsx: which
--               page is shown, and where a visit is sent instead
--   Query       `URLSearchParams`, as that file uses it
--   Percent     the rounded percentage that several of them compute, as an interface with laws
--   Base        Boolean tests, lists, sets of ids as lists, texts, and numbers in texts
--
-- How they interact: an upload takes the entries that UploadTree collects and its summary is what
-- the rejection rows read; the inbox and the readiness of a document read the same record; the
-- acceptance of suggestions asks the filter of destinations; the dialog that moves a folder offers
-- what the search for its descendants leaves. A hook's request goes through the client, which adds
-- the token that the session hooks keep; the library page's state becomes the parameters of a list,
-- which the client writes into an address.
--
-- Correspondence: names are those of the source, in lower case with underscores. A JavaScript Set of
-- ids is a list that keeps the order of insertion; undefined and null are `none`; a hook's state is
-- a record that its handlers map to the next one, and what it calls (onOpen, the progress shown)
-- is a field of that record. A panel that waits for answers is a state machine: an event is one run
-- of its code between two awaits, and the updaters that its setters are given run at once. A promise
-- that is rejected is `none` or a constructor of its own.
--
-- Fuel: the `while` loop of the folder search takes as many rounds as there are folders and one
-- more, since each folder is put on the stack at most once. The redirections of a visit are followed
-- for a given number of steps; two are asked for.
--
-- Parameters: the directories that the browser reads, the answers of the server, percentages in
-- double precision, dates, the clock, temporary ids, `toLowerCase`, `toUpperCase`, `includes`,
-- `localeCompare`, `decodeURIComponent`, `JSON`, what `Number` reads of a text, whether the router heeds a
-- navigation during rendering, and the query client with its documented laws.
--
-- Not modelled: rendering, the query client's own scheduling, the queries of users, AI
-- providers, backups and logs, the rewriting of raw chunk markers by regular expressions, the tree that
-- buildTree makes of the folders, the highlight of a quotation in a PDF, the settings pages but those of
-- the users, the own profile and the tags, and the dialog that assigns a model, and the server. Numbers in an address are read
-- exactly, as JavaScript does up to 2^53. A selection is a list, so the identity of Set objects, on
-- which React decides whether to render, is not there.
mod Base
pub mod Types
pub mod Percent
pub mod Readiness
pub mod Folders
pub mod UploadTree
pub mod Upload
pub mod Inbox
pub mod Selection
pub mod Query
pub mod Library
pub mod Client
pub mod Ask
pub mod Hooks
pub mod Drag
pub mod Share
pub mod Settings
pub mod Trash
pub mod Viewer
pub mod Routes
