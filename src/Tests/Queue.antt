-- ===== src/Tests/Queue.antt =====
-- The queue store on concrete envelopes.
use axeno_relay.Prelude.{
  if◌then◌else◌, ℕ, ◌≤◌, ◌≡◌, ◌≢◌, ◌⊎◌, ok, err, anyhow, DbCall, refl, none, some, [], ◌∷◌, ◌++◌,
  arith, length, drop, take, Text, str, IsFreeOf, ok, err, commit, anyhow, sum_by, saturating_sub,
  saturating_add, wrap_add, wrap_sub, length, keep_if, text_lt, text_eq, split_once,
}
use axeno_relay.Protocol.{StoredEnvelope}
use axeno_relay.Table.{TableApi, total, lookup, without}
use axeno_relay.Util.{atomic_sub_saturating}
use axeno_relay.QueueStore.{
  QueueStore, key_for, mailbox_rows, enqueue, account_enqueue, enqueue_plan, choose_evicted,
  write_envelope, remove_ids, collect, place, sort_by_seq, read_mailbox, evict_loop, sum_bytes,
}
use axeno_relay.QueueStore.Invariant.{IsConsistent, weigh, weigh_in, one}
use axeno_relay.QueueStore.Eviction.{HasRoom, entry_bytes}
use axeno_relay.QueueStore.Planning.{Fits}
use axeno_relay.QueueStore.Enqueue.{enqueue-IsConsistent}
use axeno_relay.QueueStore.Shrinking.{ack-IsConsistent}
use axeno_relay.QueueStore.Purging.{purge_mailbox-IsConsistent}
use axeno_relay.QueueStore.Removal.{ack, purge_mailbox}
use axeno_relay.QueueStore.Acknowledgement.{is_named, ack-rows}
use axeno_relay.QueueStore.Committed.{new_entry}
use axeno_relay.QueueStore.Delivery.{
  enqueue-appends, enqueue-evicts_least, enqueue-other, enqueue-all_or_nothing,
}
use axeno_relay.Tests.Crates.{queue_api, empty_queues, encode, decode}

abbrev alice : Text
alice = str "mbx_alice"

abbrev bob : Text
bob = str "mbx_bob"

abbrev hello : StoredEnvelope Text
hello = record { id = str "id1"; to = alice; envelope_type = str "m"; ciphertext = str "hello" }

abbrev again : StoredEnvelope Text
again = record { id = str "id2"; to = alice; envelope_type = str "m"; ciphertext = str "again!" }

alice_free : IsFreeOf b':' alice
unfolding split_once
alice_free = refl

empty-IsConsistent : IsConsistent queue_api empty_queues
unfolding total sum_by lookup
empty-IsConsistent = record {
  rows = λ k b g. absurd cc;
  unique = λ j k b c v w gj gk dx dw e. absurd cc;
  total_bytes = refl;
  counts = λ m. refl;
  bytes = λ m. refl;
}

-- The store after one envelope was queued for Alice.
abbrev one_queued : QueueStore queue_api
one_queued = (enqueue queue_api none 7 alice hello empty_queues).1

empty-Fits : Fits queue_api empty_queues 5
unfolding total sum_by
empty-Fits = record { bytes = omega arith; rows = omega arith; seqs = omega arith }

enqueue-IsConsistent_example :
    IsConsistent queue_api (enqueue queue_api (some commit) 7 alice hello empty_queues).1
unfolding lookup
enqueue-IsConsistent_example =
    enqueue-IsConsistent queue_api (some commit) 7 alice hello empty_queues alice_free
      empty-IsConsistent refl empty-Fits

one_queued-IsConsistent : IsConsistent queue_api one_queued
unfolding lookup
one_queued-IsConsistent =
    enqueue-IsConsistent queue_api none 7 alice hello empty_queues alice_free empty-IsConsistent
      refl empty-Fits

one_queued-Fits : Fits queue_api one_queued 6
unfolding enqueue enqueue_plan encode choose_evicted wrap_add lookup write_envelope remove_ids total
    sum_by axeno_relay.Table.ByList.insert weigh decode without
one_queued-Fits = record { bytes = omega arith; rows = omega arith; seqs = omega arith }

again_is_fresh : lookup (key_for queue_api alice again.id) one_queued.db.items ≡ none
unfolding enqueue lookup enqueue_plan encode choose_evicted wrap_add write_envelope remove_ids
    axeno_relay.Table.ByList.insert text_eq key_for without
again_is_fresh = refl

again_done : (enqueue queue_api none 8 alice again one_queued).0 ≡ ok 0
unfolding enqueue enqueue_plan encode choose_evicted wrap_add lookup write_envelope remove_ids
    axeno_relay.Table.ByList.insert text_eq saturating_add saturating_sub
again_done = refl

enqueue-appends_example :
    (mailbox_rows queue_api (enqueue queue_api none 8 alice again one_queued).1.db alice
      ≡ drop 0 (mailbox_rows queue_api one_queued.db alice)
        ++ new_entry queue_api 8 again one_queued ∷ [])
    × (0 ≤ length (mailbox_rows queue_api one_queued.db alice))
    × (length (mailbox_rows queue_api (enqueue queue_api none 8 alice again one_queued).1.db alice)
        ≤ 500)
    × (entry_bytes queue_api
          (mailbox_rows queue_api (enqueue queue_api none 8 alice again one_queued).1.db alice)
        ≤ 8388608)
enqueue-appends_example =
    enqueue-appends queue_api none 8 alice again one_queued alice_free one_queued-IsConsistent
      again_is_fresh one_queued-Fits 0 again_done (omega arith)

room_for_again : HasRoom queue_api 6 (drop 0 (mailbox_rows queue_api one_queued.db alice))
unfolding mailbox_rows keep_if enqueue enqueue_plan encode choose_evicted wrap_add lookup
    write_envelope remove_ids axeno_relay.Table.ByList.insert text_lt key_for split_once decode
    without sum_by take text_eq saturating_add saturating_sub wrap_sub account_enqueue collect
    evict_loop place read_mailbox sort_by_seq sum_bytes atomic_sub_saturating
room_for_again = record { count = omega arith; bytes = omega arith }

enqueue-evicts_least_example : 0 ≤ 0
enqueue-evicts_least_example =
    enqueue-evicts_least queue_api none 8 alice again one_queued alice_free one_queued-IsConsistent
      again_is_fresh one_queued-Fits 0 again_done 0 room_for_again

bob_free : IsFreeOf b':' bob
unfolding split_once
bob_free = refl

again_is_fresh_for_bob : lookup (key_for queue_api bob again.id) one_queued.db.items ≡ none
unfolding enqueue lookup enqueue_plan encode choose_evicted wrap_add write_envelope remove_ids
    axeno_relay.Table.ByList.insert text_eq key_for without
again_is_fresh_for_bob = refl

bob_is_not_alice : bob ≢ alice
bob_is_not_alice e = cc

enqueue-other_example :
    mailbox_rows queue_api (enqueue queue_api none 8 bob again one_queued).1.db alice
    ≡ mailbox_rows queue_api one_queued.db alice
enqueue-other_example =
    enqueue-other queue_api none 8 bob again one_queued bob_free one_queued-IsConsistent
      again_is_fresh_for_bob one_queued-Fits alice alice_free bob_is_not_alice

commit_fails : (enqueue queue_api (some commit) 8 alice again one_queued).0 ≡ err anyhow
unfolding enqueue enqueue_plan encode choose_evicted wrap_add lookup write_envelope remove_ids
    axeno_relay.Table.ByList.insert text_eq saturating_add saturating_sub
commit_fails = refl

enqueue-all_or_nothing_example :
    ((count : ℕ) × ((enqueue queue_api (some commit) 8 alice again one_queued).0 ≡ ok count)
      × (mailbox_rows queue_api
            (enqueue queue_api (some commit) 8 alice again one_queued).1.db
            alice
          ≡ drop count (mailbox_rows queue_api one_queued.db alice)
            ++ new_entry queue_api 8 again one_queued ∷ []))
    ⊎ ((enqueue queue_api (some commit) 8 alice again one_queued).0 ≡ err anyhow)
      × ((enqueue queue_api (some commit) 8 alice again one_queued).1
          ≡ record one_queued { next_seq = wrap_add one_queued.next_seq 1 })
      × (((call : DbCall) × (some commit ≡ some call))
          ⊎ (encode (new_entry queue_api 8 again one_queued).1 ≡ none))
enqueue-all_or_nothing_example =
    enqueue-all_or_nothing queue_api (some commit) 8 alice again one_queued alice_free
      one_queued-IsConsistent again_is_fresh one_queued-Fits (omega arith)

hello_is_acknowledged : (ack queue_api none alice (str "id1" ∷ []) one_queued).0 ≡ ok 1
unfolding enqueue enqueue_plan encode choose_evicted wrap_add lookup write_envelope remove_ids
    axeno_relay.Table.ByList.insert axeno_relay.Table.ByList.remove text_eq key_for without
    saturating_add saturating_sub account_enqueue axeno_relay.Util.atomic_sub_saturating ack
    axeno_relay.QueueStore.Removal.ack_txn axeno_relay.QueueStore.Removal.ack_rows
    axeno_relay.QueueStore.Removal.ack_row axeno_relay.QueueStore.Removal.row_bytes
    axeno_relay.QueueStore.Removal.account_ack
hello_is_acknowledged = refl

ack-rows_example :
    lookup
      (key_for queue_api alice (str "id1"))
      (ack queue_api none alice (str "id1" ∷ []) one_queued).1.db.items
    ≡ (if is_named queue_api alice (str "id1" ∷ []) (key_for queue_api alice (str "id1"))
        then none
        else lookup (key_for queue_api alice (str "id1")) one_queued.db.items)
ack-rows_example =
    ack-rows queue_api none alice (str "id1" ∷ []) one_queued 1 hello_is_acknowledged
      (key_for queue_api alice (str "id1"))

ack-IsConsistent_example :
    IsConsistent queue_api (ack queue_api none alice (str "id1" ∷ []) one_queued).1
ack-IsConsistent_example =
    ack-IsConsistent queue_api none alice (str "id1" ∷ []) one_queued alice_free
      (omega (arith, one_queued-Fits.bytes)) (omega (arith, one_queued-Fits.rows))
      one_queued-IsConsistent

purge_mailbox-IsConsistent_example :
    IsConsistent queue_api (purge_mailbox queue_api none alice one_queued).1
    × (((purge_mailbox queue_api none alice one_queued).0 ≡ err anyhow)
          × ((purge_mailbox queue_api none alice one_queued).1 ≡ one_queued)
        ⊎ (((count : ℕ) × ((purge_mailbox queue_api none alice one_queued).0 ≡ ok count))
            × ((m : Text)
                → total queue_api.db
                    (weigh_in queue_api m one)
                    (purge_mailbox queue_api none alice one_queued).1.db
                  ≡ (if text_eq alice m
                      then 0
                      else total queue_api.db (weigh_in queue_api m one) one_queued.db))))
purge_mailbox-IsConsistent_example =
    purge_mailbox-IsConsistent queue_api none alice one_queued alice_free
      (omega (arith, one_queued-Fits.bytes)) one_queued-IsConsistent
