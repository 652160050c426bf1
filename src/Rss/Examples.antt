-- ===== src/Rss/Examples.antt =====
-- The vectors of tests/test_rss.cpp, and the theorems of Rss at four queues.
use fast_break.Base.{ℕ, ◌≡◌, refl, true, false, List, [], ◌∷◌, arith, get_or, ◌==◌, if◌then◌else◌}
use fast_break.Spsc.Window.{contents}
use fast_break.Parser.{ParsedPacket}
use fast_break.Rss.{
  RssDistributor, key_bit, hash_bit, hash_bits, hash_bytes, input_bytes, first_window, toeplitz,
  create, queue_capacity,
}
use fast_break.Rss.Toeplitz.{xor_windows, toeplitz_lem}
use fast_break.Rss.Submit.{
  IsDistributor, create-IsDistributor, submit_all, queue_after, submit_all_lem,
}

vector_1 : toeplitz 0x420995BB 0xA18E6450 2794 1766 ≡ 0x51ccc178
unfolding toeplitz hash_bytes hash_bits hash_bit key_bit input_bytes first_window
vector_1 = refl

vector_2 : toeplitz 0xC75C6F02 0x41458C53 14230 4739 ≡ 0xc626b0ea
unfolding toeplitz hash_bytes hash_bits hash_bit key_bit input_bytes first_window
vector_2 = refl

vector_3 : toeplitz 0x1813C65F 0x0C16CFB8 12898 38024 ≡ 0x5c2b394a
unfolding toeplitz hash_bytes hash_bits hash_bit key_bit input_bytes first_window
vector_3 = refl

vector_4 : toeplitz 0x261BCD1E 0xD18EA306 48228 2217 ≡ 0xafc7327f
unfolding toeplitz hash_bytes hash_bits hash_bit key_bit input_bytes first_window
vector_4 = refl

toeplitz_lem_example :
    let input = input_bytes 0x420995BB 0xA18E6450 2794 1766 in
    toeplitz 0x420995BB 0xA18E6450 2794 1766 ≡ xor_windows (λ k. get_or input k 0) 96
toeplitz_lem_example = toeplitz_lem 0x420995BB 0xA18E6450 2794 1766

abbrev four_queues : RssDistributor
four_queues = create (λ _. 0) 4

four_queues-IsDistributor : IsDistributor four_queues
four_queues-IsDistributor =
    create-IsDistributor (λ _. 0) 4
      (record { nonzero = omega arith; one_bit = refl; fits = omega arith }) (omega arith)

-- Packets of two flows that are UDP, told apart by the source port's low byte, and one that is not
-- IPv4.
abbrev packet : ℕ → ParsedPacket
packet port = record {
  valid = true;
  eth = record { buf = λ _. 0; len = 60 };
  ip = record { buf = λ i. i; len = 46 };
  udp = record { buf = λ i. if i == 1 then port else 0; len = 26 };
  has_ip = true;
  has_udp = true;
}

abbrev plain : ParsedPacket
plain = record {
  valid = true;
  eth = record { buf = λ _. 0; len = 60 };
  ip = record { buf = λ _. 0; len = 46 };
  udp = record { buf = λ _. 0; len = 26 };
  has_ip = false;
  has_udp = false;
}

abbrev traffic : List (ℕ × ParsedPacket)
traffic = (10, packet 1) ∷ (11, packet 2) ∷ (12, packet 1) ∷ (13, plain) ∷ []

submit_all_lem_example :
    contents queue_capacity ((submit_all traffic four_queues).queues 1)
    ≡ queue_after 1 four_queues.queue_count traffic (contents queue_capacity (four_queues.queues 1))
submit_all_lem_example = submit_all_lem 1 traffic four_queues four_queues-IsDistributor
