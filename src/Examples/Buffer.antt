-- ===== src/Examples/Buffer.antt =====
-- Calls on a buffer of five bytes, and a transaction read through a buffer.
use blockchain_indexer.Base.{ℕ, ◌<◌, ◌≡◌, inr, [], ◌∷◌, ◌++◌, Bytes, length, arith, ◌^◌, ok}
use blockchain_indexer.Stream.{open_stream, read}
use blockchain_indexer.BlockReader.{read_transaction}
use blockchain_indexer.BlockReader.Serialize.{original}
use blockchain_indexer.ByteArrayBuffer.{IStream, open_buffer}
use blockchain_indexer.ByteArrayBuffer.Client.{
  Client, done, reading, telling, seeking, seeking_back, on_stream, on_buffer, Stays,
}
use blockchain_indexer.ByteArrayBuffer.Shows.{Shows, open-Shows}
use blockchain_indexer.ByteArrayBuffer.Refines.{Refines, on_buffer-Refines}
use blockchain_indexer.ByteArrayBuffer.Transaction.{transaction_client, transaction_client-Refines}
use blockchain_indexer.Examples.{toy_crypto, some_junk}
use blockchain_indexer.Examples.Blocks.{one_payment, small_original}

abbrev five : Bytes
five = 1 ∷ 2 ∷ 3 ∷ 4 ∷ 5 ∷ []

-- Two bytes, and the last three of them from the second on.
abbrev there_and_back : Client (Bytes × ℕ)
there_and_back = reading 2 (0 ∷ 0 ∷ []) (λ front.
    seeking 4
      (seeking_back 2 (telling (λ at. reading 4 (0 ∷ []) (λ others. done (front ++ others, at))))))

there_and_back-Stays : Stays there_and_back (open_stream five)
unfolding Stays read
there_and_back-Stays = (inr (omega arith), tt)

on_buffer-Refines_example : Refines there_and_back (open_stream five) (open_buffer five)
on_buffer-Refines_example =
    on_buffer-Refines there_and_back (open_stream five) (open_buffer five)
      (open-Shows five (omega arith)) there_and_back-Stays

abbrev payment : Bytes
payment = original one_payment

small_payment : length payment < 2 ^ 64
small_payment = omega (arith, small_original)

transaction_client-Refines_example :
    (on_stream (transaction_client toy_crypto some_junk) (open_stream payment)
      ≡ read_transaction toy_crypto some_junk (open_stream payment))
    × ((i' : IStream) × (on_buffer (transaction_client toy_crypto some_junk) (open_buffer payment)
          ≡ ok ((read_transaction toy_crypto some_junk (open_stream payment)).0, i'))
        × Shows (read_transaction toy_crypto some_junk (open_stream payment)).1 i')
transaction_client-Refines_example =
    transaction_client-Refines toy_crypto some_junk (open_stream payment) (open_buffer payment)
      (open-Shows payment small_payment)
