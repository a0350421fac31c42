-- ===== src/Upload/Flow.antt =====
-- transfer/uploader.go: Upload, with the submission of the log entry, the transfer to the nodes and
-- the waiting. What happens is a list of events, the latest first; what nodes and chain answer may
-- depend on all of it.
pub mod Quiet
pub mod Sends
pub mod Waits
mod Tests
use g_storage_client.Prelude.{
  ℕ, zero, suc, ◌+◌, ◌-◌, Bool, true, false, not, ◌||◌, ◌&&◌, Option, none, some, List, [], ◌∷◌,
  ◌==◌, if◌then◌else◌, ltb, leb, length, get_elem?, replicate,
}
use g_storage_client.Prelude.Results.{Result, ok, error}
use g_storage_client.Merkle.{Hash, Tree, root_hash}
use g_storage_client.Parallel.{in_order}
use g_storage_client.Shard.{ShardConfig, ShardedNode}
use g_storage_client.Core.Data.{DataInMemory, num_segments, data_size}
use g_storage_client.Core.Submission.{Submission, fee, create_submission, merkle_tree}
use g_storage_client.Upload.{default_task_size, UploadTask, UploadError, new_segment_uploader}
use g_storage_client.Upload.Segments.{SegmentWithProof, contains, TaskError, upload_task}

abbrev pub small_file_size_threshold : ℕ
small_file_size_threshold = 262144

abbrev pub submit_log_entry_retries : ℕ
submit_log_entry_retries = 12

-- "Specified block header does not exist"
abbrev pub specified_block_error : List ℕ
specified_block_error =
    83 ∷ 112 ∷ 101 ∷ 99 ∷ 105 ∷ 102 ∷ 105 ∷ 101 ∷ 100 ∷ 32 ∷ 98 ∷ 108 ∷ 111 ∷ 99 ∷ 107 ∷ 32 ∷ 104
    ∷ 101 ∷ 97 ∷ 100 ∷ 101 ∷ 114 ∷ 32 ∷ 100 ∷ 111 ∷ 101 ∷ 115 ∷ 32 ∷ 110 ∷ 111 ∷ 116 ∷ 32 ∷ 101
    ∷ 120 ∷ 105 ∷ 115 ∷ 116 ∷ []

unfoldable pub is_retriable_submit_log_entry_error : List ℕ → Bool
is_retriable_submit_log_entry_error msg = contains msg specified_block_error

-- FinalityRequirement
abbrev pub file_finalized : ℕ
file_finalized = 0

abbrev pub transaction_packed : ℕ
transaction_packed = 1

abbrev pub wait_nothing : ℕ
wait_nothing = 2

pub record UploadOption : Type 0 where
  pub tags : List ℕ
  pub finality_required : ℕ
  pub task_size : ℕ
  pub expected_replica : ℕ
  pub skip_tx : Bool
  pub fee : Option ℕ
  pub nonce : Option ℕ

pub record FileInfo : Type 0 where
  pub finalized : Bool

-- What changes the chain, the nodes or the time: among them each call of Submit or BatchSubmit,
-- one that sends the transaction, and one that the contract refuses with an error.
pub data Event : Type 0 where
  submitted refused : List Submission → ℕ → Option ℕ → Event
  receipt_awaited uploaded : Hash → Event
  slept : Event

-- What the other systems answer: the nodes by their index, the contract by the number of the try, of what has happened before.
pub record Answers (E : Type 0) : Type 0 where
  pub clients : ℕ
  pub file_info : List Event → ℕ → Hash → Result E (Option FileInfo)
  pub shard_config : List Event → ℕ → Result E ShardConfig
  pub upload_segments : List Event → ℕ → List SegmentWithProof → ℕ → Result (List ℕ) (Unit {0})
  pub transact_opts : List Event → Result E (Unit {0})
  pub price_per_sector : List Event → Result E ℕ
  pub submit : List Event → Submission → ℕ → Option ℕ → ℕ → Result (List ℕ) Hash
  pub batch_submit : List Event → List Submission → ℕ → Option ℕ → ℕ → Result (List ℕ) Hash
  pub wait_for_receipt : List Event → Hash → Result E (Unit {0})

-- `still_waiting`: the rounds that a wait is given are over.
pub data FlowError (E : Type 0) : Type 0 where
  data_error still_waiting transfer_failed : FlowError E
  node_error : E → FlowError E
  uploader_error : UploadError E → FlowError E
  submit_failed : List ℕ → FlowError E

abbrev pub Run : Type 0 → Type 0 → Type 0
Run E A = List Event → Result (FlowError E) A × List Event

module _ {E A : Type 0} where
  abbrev pub pure : A → Run E A
  pure a h = (ok a, h)

  abbrev pub raise : FlowError E → Run E A
  raise e h = (error e, h)

  abbrev pub answer : Result E A → Result (FlowError E) A
  answer (ok a) = ok a
  answer (error e) = error (FlowError.node_error e)

  abbrev pub ask : (List Event → Result E A) → Run E A
  ask f h = (answer (f h), h)

  abbrev pub after : Event → A → Run E A
  after e a h = (ok a, e ∷ h)

module _ {E A B : Type 0} where
  abbrev pub continue :
      (A → Run E B) → Result (FlowError E) A × List Event → Result (FlowError E) B × List Event
  continue f (ok a, h) = f a h
  continue f (error e, h) = (error e, h)

  infixl 10 ◌>>=◌
  abbrev pub ◌>>=◌ : Run E A → (A → Run E B) → Run E B
  ◌>>=◌ m f h = continue f (m h)

-- What follows a try's answer; `again` is the loop after a refused call and a sleep.
abbrev pub after_try :
    {E : Type 0}
    → List Submission
    → ℕ
    → Option ℕ
    → ℕ
    → List Event
    → Result (FlowError E) Hash × List Event
    → Result (List ℕ) Hash
    → Result (FlowError E) Hash × List Event
after_try submissions value tx_nonce i h again (ok tx) =
    (ok tx, Event.submitted submissions value tx_nonce ∷ h)
after_try submissions value tx_nonce i h again (error msg) =
    if not (is_retriable_submit_log_entry_error msg) || leb (submit_log_entry_retries - 1) i
    then (error (FlowError.submit_failed msg), Event.refused submissions value tx_nonce ∷ h)
    else again

-- The loops of Submit and BatchSubmit, with the tries left and those made. `call` is the answer to a
-- try after what has happened; each call is an event, and so is the sleep before the next.
unfoldable pub submit_loop :
    {E : Type 0}
    → (List Event → ℕ → Result (List ℕ) Hash)
    → List Submission
    → ℕ
    → Option ℕ
    → ℕ
    → ℕ
    → Run E Hash
submit_loop call submissions value tx_nonce zero i h = (error (FlowError.submit_failed []), h)
submit_loop call submissions value tx_nonce (suc tries) i h =
    after_try submissions value tx_nonce i h
      (submit_loop call submissions value tx_nonce tries (suc i)
        (Event.slept ∷ Event.refused submissions value tx_nonce ∷ h))
      (call h i)

abbrev pub fees : List Submission → ℕ → ℕ
fees [] price = 0
fees (s ∷ ss) price = fee s price + fees ss price

abbrev pub transaction_value : Option ℕ → List Submission → ℕ → ℕ
transaction_value (some given) submissions price = given
transaction_value none submissions price = fees submissions price

module _ {E : Type 0} (answers : Answers E) where
  -- What checkLogExistance does with a node's answer; `rest` asks the other nodes.
  abbrev pub exists_or : Run E Bool → Option FileInfo → Run E Bool
  exists_or rest none = rest
  exists_or rest (some info) = pure true

  -- checkLogExistance, with the clients left and the index of the next.
  unfoldable pub check_log_existance : ℕ → ℕ → Hash → Run E Bool
  check_log_existance zero i root = pure false
  check_log_existance (suc left) i root = ask (λ h. answers.file_info h i root) >>= λ info.
      exists_or (check_log_existance left (suc i) root) info

  abbrev pub ready_and : ℕ → Run E Bool → Option FileInfo → Run E Bool
  ready_and finality rest none = pure false
  ready_and finality rest (some info) =
      if leb finality file_finalized && not info.finalized then pure false else rest

  -- A round of waitForLogEntry over the clients.
  unfoldable pub wait_round : ℕ → ℕ → Hash → ℕ → Run E Bool
  wait_round zero i root finality = pure true
  wait_round (suc left) i root finality = ask (λ h. answers.file_info h i root) >>= λ info.
      ready_and finality (wait_round left (suc i) root finality) info

  abbrev pub unless_ready : Run E (Unit {0}) → Bool → Run E (Unit {0})
  unless_ready rest true = pure tt
  unless_ready rest false = rest

  -- The loop of waitForLogEntry, with the rounds left.
  unfoldable pub wait_loop : ℕ → Hash → ℕ → Run E (Unit {0})
  wait_loop zero root finality = raise FlowError.still_waiting
  wait_loop (suc rounds) root finality = after Event.slept tt >>= λ (_ : Unit {0}).
      wait_round answers.clients 0 root finality >>= unless_ready (wait_loop rounds root finality)

  unfoldable pub wait_for_log_entry : ℕ → Hash → ℕ → Run E (Unit {0})
  wait_for_log_entry rounds root finality =
      if finality == wait_nothing then pure tt else wait_loop rounds root finality

  -- The answers of getShardConfigs, for the clients left from an index on.
  abbrev pub shard_configs : List Event → ℕ → ℕ → List (Result E ShardConfig)
  shard_configs h zero i = []
  shard_configs h (suc left) i = answers.shard_config h i ∷ shard_configs h left (suc i)

  -- Whether newSegmentUploader skips a node; an error counts as no information.
  abbrev pub is_finalized : Result E (Option FileInfo) → Bool
  is_finalized (error e) = false
  is_finalized (ok none) = false
  is_finalized (ok (some info)) = info.finalized

  abbrev pub sent_segments :
      Result TaskError (List SegmentWithProof) → Option (List SegmentWithProof)
  sent_segments (error e) = none
  sent_segments (ok segments) = some segments

  -- A task of Serial's call, and its ParallelCollect.
  abbrev pub transfer_task :
      List Event → DataInMemory → Tree → ℕ → Option UploadTask → Option (List SegmentWithProof)
  transfer_task h d t task_size none = none
  transfer_task h d t task_size (some task) = sent_segments (
      upload_task (answers.upload_segments h task.client_index) d t task_size task.num_shard
        task.seg_index)

  abbrev pub collect_nothing : ℕ → List SegmentWithProof → Unit {0} → Option (Unit {0})
  collect_nothing task segments s = some tt

  abbrev pub transfer :
      List Event
      → DataInMemory
      → Tree
      → ℕ
      → Result (UploadError E) (List UploadTask)
      → Result (FlowError E) (Unit {0})
  transfer h d t task_size (error e) = error (FlowError.uploader_error e)
  transfer h d t task_size (ok tasks) =
      elim (in_order (λ k. transfer_task h d t task_size (get_elem? tasks k)) collect_nothing
        (length tasks) tt) [ none ↦ error FlowError.transfer_failed | some _ ↦ ok tt ]

  module _ (sorted : List ShardedNode → List ShardedNode) where
    -- uploadFile; the transfer is an event even if it fails.
    unfoldable pub upload_file : DataInMemory → Tree → ℕ → ℕ → Run E (Unit {0})
    upload_file d t expected_replica asked_size h =
        let task_size : ℕ = if asked_size == 0 then default_task_size else asked_size in
        let tasks =
          new_segment_uploader sorted (shard_configs h answers.clients 0)
            (λ i. is_finalized (answers.file_info h i (root_hash t))) (num_segments d)
            expected_replica task_size in
        (transfer h d t task_size tasks, Event.uploaded (root_hash t) ∷ h)

    module _ (keccak256 : List ℕ → Hash) where
      abbrev pub submissions_of : List (DataInMemory × List ℕ) → Option (List Submission)
      submissions_of [] = some []
      submissions_of ((d, tags) ∷ rest) = elim (create_submission keccak256 d tags) [
        | none ↦ none
        | some s ↦ elim (submissions_of rest) [ none ↦ none | some ss ↦ some (s ∷ ss) ]
      ]

      -- The transaction: Submit for one submission, BatchSubmit for several.
      abbrev pub send : List Submission → ℕ → Option ℕ → Run E Hash
      send (s ∷ []) value tx_nonce =
          submit_loop (λ h. answers.submit h s value tx_nonce) (s ∷ []) value tx_nonce
            submit_log_entry_retries 0
      send submissions value tx_nonce =
          submit_loop (λ h. answers.batch_submit h submissions value tx_nonce) submissions value
            tx_nonce submit_log_entry_retries 0

      abbrev pub receipt_of : Bool → Hash → Run E Hash
      receipt_of false tx = pure tx
      receipt_of true tx = after (Event.receipt_awaited tx) tt >>= λ (_ : Unit {0}).
          ask (λ h. answers.wait_for_receipt h tx) >>= λ (_ : Unit {0}). pure tx

      abbrev pub submit_priced : Bool → Option ℕ → Option ℕ → List Submission → ℕ → Run E Hash
      submit_priced wait_for_receipt tx_nonce fee submissions price =
          send submissions (transaction_value fee submissions price) tx_nonce
          >>= receipt_of wait_for_receipt

      abbrev pub submit_all : Bool → Option ℕ → Option ℕ → Option (List Submission) → Run E Hash
      submit_all wait_for_receipt tx_nonce fee none = raise FlowError.data_error
      submit_all wait_for_receipt tx_nonce fee (some submissions) =
          ask answers.transact_opts >>= λ (_ : Unit {0}).
          ask answers.price_per_sector >>= submit_priced wait_for_receipt tx_nonce fee submissions

      unfoldable pub submit_log_entry :
          List (DataInMemory × List ℕ) → Bool → Option ℕ → Option ℕ → Run E Hash
      submit_log_entry datas wait_for_receipt nonce fee =
          submit_all wait_for_receipt nonce fee (submissions_of datas)

      -- The part of Upload that appends the log; the hash is zero when it is skipped.
      abbrev pub wait_for_packed : ℕ → DataInMemory → Hash → UploadOption → Run E (Unit {0})
      wait_for_packed rounds d root opt =
          if leb (data_size d) small_file_size_threshold
          then pure tt
          else if leb opt.finality_required transaction_packed
          then wait_for_log_entry rounds root transaction_packed
          else pure tt

      unfoldable pub append_log : ℕ → DataInMemory → Hash → UploadOption → Bool → Run E Hash
      append_log rounds d root opt exist =
          if not opt.skip_tx || not exist
          then (submit_log_entry ((d, opt.tags) ∷ []) (leb opt.finality_required transaction_packed)
                opt.nonce opt.fee
              >>= λ tx. wait_for_packed rounds d root opt >>= λ (_ : Unit {0}). pure tx)
          else pure (replicate 32 0)

      unfoldable pub upload_tree : ℕ → DataInMemory → UploadOption → Tree → Run E Hash
      upload_tree rounds d opt t = check_log_existance answers.clients 0 (root_hash t) >>= λ exist.
          append_log rounds d (root_hash t) opt exist >>= λ tx.
          upload_file d t opt.expected_replica opt.task_size >>= λ (_ : Unit {0}).
          wait_for_log_entry rounds (root_hash t) opt.finality_required >>= λ (_ : Unit {0}).
          pure tx

      abbrev pub upload_built : ℕ → DataInMemory → UploadOption → Option (Option Tree) → Run E Hash
      upload_built rounds d opt none = raise FlowError.data_error
      upload_built rounds d opt (some none) = raise FlowError.data_error
      upload_built rounds d opt (some (some t)) = upload_tree rounds d opt t

      unfoldable pub upload : ℕ → DataInMemory → UploadOption → Run E Hash
      upload rounds d opt = upload_built rounds d opt (merkle_tree keccak256 d)
