-- ===== src/Upload/Flow/Tests.antt =====
-- transfer/uploader.go: an upload to one node, which has the file after two seconds.
use g_storage_client.Prelude.{◌≡◌, refl, true, false, Option, none, some, List, [], ◌∷◌, replicate}
use g_storage_client.Prelude.Results.{ok}
use g_storage_client.Merkle.{Hash}
use g_storage_client.Core.Data.{DataInMemory}
use g_storage_client.Upload.Flow.{UploadOption, FileInfo, Event, slept, Answers, wait_loop, upload}
use g_storage_client.Upload.Flow.Sends.{Uploads, upload-Uploads}
use g_storage_client.Upload.Flow.Waits.{Waited, wait_loop-Waited, wait_loop-sleeps}

abbrev info_after : List Event → Option FileInfo
info_after (slept ∷ slept ∷ h) = some (record { finalized = true })
info_after (slept ∷ h) = some (record { finalized = false })
info_after h = none

abbrev one_node : Answers (Unit {0})
one_node = record {
  clients = 1;
  file_info = λ h i root. ok (info_after h);
  shard_config = λ h i. ok (record { shard_id = 0; num_shard = 1 });
  upload_segments = λ h i segments try. ok tt;
  transact_opts = λ h. ok tt;
  price_per_sector = λ h. ok 5;
  submit = λ h submission value tx_nonce try. ok (replicate 32 1);
  batch_submit = λ h submissions value tx_nonce try. ok (replicate 32 1);
  wait_for_receipt = λ h tx. ok tt;
}

abbrev file_root : Hash
file_root = replicate 32 4

wait_loop-sleeps_example : (wait_loop one_node 2 file_root 0 []).0 ≡ ok tt
wait_loop-sleeps_example =
    wait_loop-sleeps one_node file_root 0 (λ h i. info_after h) (λ h i. refl) 1 [] (refl, tt)

wait_loop-Waited_example : Waited one_node file_root 0 (wait_loop one_node 3 file_root 0 [])
wait_loop-Waited_example = wait_loop-Waited one_node file_root 0 3 []

abbrev small_file : DataInMemory
small_file = record { underlying = 1 ∷ 2 ∷ 3 ∷ []; padded_size = 256 }

abbrev plain : UploadOption
plain = record {
  tags = [];
  finality_required = 0;
  task_size = 0;
  expected_replica = 1;
  skip_tx = false;
  fee = none;
  nonce = none;
}

upload-Uploads_example :
    Uploads plain [] (upload one_node (λ nodes. nodes) (λ bytes. bytes) 3 small_file plain [])
upload-Uploads_example =
    upload-Uploads one_node (λ nodes. nodes) (λ bytes. bytes) 3 small_file plain []
