-- ===== src/Search/Channel.antt =====
-- doSearch of pkg/search.go: which goroutines it starts, and how they, the receiver and the goroutine
-- that closes the channel move on. Sending is one step with receiving, since the channel has no buffer,
-- and the receiver takes all that is sent. The files of a store's index are its own.
pub mod Closes
use kswitch.Prelude.{
  ℕ, zero, suc, ◌+◌, ◌-◌, Text, ◌≡◌, Bool, true, false, if◌then◌else◌, length, Option, none, some,
  List, [], ◌∷◌, ◌++◌,
}
use kswitch.Prelude.Dict.{Dict}
use kswitch.Prelude.Go.{Go, ok, err, panic, hang, ◌>>=◌}
use kswitch.Alias.{Disk, load}
use kswitch.Search.{Store, KubeConfig}
use kswitch.Search.Index.{
  Index, IndexFiles, Error, required_store, bad_aliases, new_index, read_from_index,
}
use kswitch.Search.Worker.{Message, search_index, search_live, nothing_remembered, is_optional}

-- The WaitGroup's counter, what each running goroutine has still to send, what was received in order,
-- whether the channel is closed, and whether a goroutine has panicked.
pub record Running : Type 0 where
  pub counter : ℕ
  pub workers : List (List Message)
  pub received : List Message
  pub closed : Bool
  pub panicked : Bool

-- The arguments of doSearch, the clock, the configuration's RefreshIndexAfter and the state directory.
pub record Request : Type 0 where
  pub now : ℕ
  pub no_index : Bool
  pub force_index : Bool
  pub refresh_index_after : Option ℕ
  pub index_files : Text → IndexFiles
  pub disk : Disk

module _ (parse : Text → Option KubeConfig) (unmarshal : Text → Option (Option (Dict Text))) where
  -- What the goroutine of a store sends, from its index or from a live search.
  messages_of : Request → Dict Text → Store → Option Index → Bool → List Message
  messages_of request mapping store index true = search_index store mapping index
  messages_of request mapping store index false =
      (search_live parse unmarshal store mapping (nothing_remembered request.disk) store.search).0

  unfoldable pub start_store : Request → Dict Text → Store → Go Error (List Message)
  unfolding messages_of
  start_store request mapping store = new_index (request.index_files store.id) >>= λ index.
      read_from_index request.now request.no_index request.force_index index store
        request.refresh_index_after (request.index_files store.id)
      >>= λ from_index. ok (messages_of request mapping store index from_index)

  -- The loop over the stores, from the counter that Add set.
  unfoldable pub start_stores :
      Request → Dict Text → ℕ → List Store → Go Error (ℕ × List (List Message))
  start_stores request mapping counter [] = ok (counter, [])
  start_stores request mapping counter (store ∷ stores) =
      let others =
        start_stores request mapping (if store.verifies then counter else counter - 1) stores in
      if store.verifies
      then (start_store request mapping store >>= λ messages.
          others >>= λ started. ok (started.0, messages ∷ started.1))
      else if is_optional store.required
      then others
      else err required_store

  mapping_or_empty : Option (Dict Text) → Dict Text
  mapping_or_empty none = []
  mapping_or_empty (some mapping) = mapping

  aliases : Request → Go Error (Dict Text)
  aliases request = elim (load unmarshal request.disk) [
    | ok (mapping, disk) ↦ ok (mapping_or_empty mapping)
    | err e ↦ err bad_aliases
    | panic ↦ panic
    | hang ↦ hang
  ]

  unfoldable pub do_search : Request → List Store → Go Error Running
  unfolding aliases mapping_or_empty
  do_search request stores = aliases request >>= λ mapping.
      start_stores request mapping (length stores) stores >>= λ started. ok (record {
        counter = started.0;
        workers = started.1;
        received = [];
        closed = false;
        panicked = false;
      })

-- A goroutine sends a message that is received, or panics, if the channel is closed; a goroutine that
-- has sent all calls Done, which panics where the counter is nought; and the last one closes the
-- channel when Wait returns.
pub data Step (s : Running) : Running → Type 0 where
  send :
      (before : List (List Message)) (m : Message) (rest : List Message)
      (after : List (List Message))
      → s.workers ≡ before ++ ((m ∷ rest) ∷ after)
      → s.closed ≡ false
      → Step s (record s { workers = before ++ (rest ∷ after); received = s.received ++ (m ∷ []) })
  send_closed :
      (before : List (List Message)) (m : Message) (rest : List Message)
      (after : List (List Message))
      → s.workers ≡ before ++ ((m ∷ rest) ∷ after)
      → s.closed ≡ true
      → Step s (record s { panicked = true })
  done :
      (before after : List (List Message)) (n : ℕ)
      → s.workers ≡ before ++ ([] ∷ after)
      → s.counter ≡ suc n
      → Step s (record s { workers = before ++ after; counter = n })
  done_below :
      (before after : List (List Message))
      → s.workers ≡ before ++ ([] ∷ after)
      → s.counter ≡ 0
      → Step s (record s { panicked = true })
  close : s.counter ≡ 0 → s.closed ≡ false → Step s (record s { closed = true })

-- However the goroutines are scheduled, a state with P is reached.
pub data Inevitably (P : Running → Type 0) : Running → Type 0 where
  now : {s : Running} → P s → Inevitably P s
  later : {s t : Running} → Step s t → ((u : Running) → Step s u → Inevitably P u) → Inevitably P s

-- What is still to be sent.
abbrev pub pending : List (List Message) → List Message
pending [] = []
pending (messages ∷ workers) = messages ++ pending workers
