-- ===== src/Lib.antt =====
-- Verification library of the hyperupcall repository: a host tool sends an eBPF program over TCP
-- to a virtual PCI device in QEMU; the device stores it and interrupts the guest; the guest's
-- driver hands it to a daemon, which loads it; the program logs the guest's calls of
-- sched_setaffinity in a map, which the daemon polls, forwarding each mask through the driver to
-- the device, which binds the vCPU threads.
--
-- Parts, and the files that model them (paths from the root of the repository):
--   Base      shared names and lemmas: Boolean tests, lists, bits, powers of two.
--   Memory    byte memory and little-endian words.
--   Msg       qemu-patch/huc_msg.h, hostend/huc_msg.h (prepare_huc_message), and
--             hostend/bpf_injection_msg.h (prepare_bpf_injection_message): header, types,
--             messages.
--   Hucdev    qemu-patch/hucdev.c. The state HucState, hucdev_raise_irq and hucdev_lower_irq are
--             here; Regs has hucdev_io_read and hucdev_io_write, Cpus the loops over the vCPUs,
--             Mmio hucdev_bufmmio_read and hucdev_bufmmio_write, Server the handlers of the
--             sockets with huc_realize and hucdev_uninit; Server.Stream has the handler on the
--             bytes that arrive at one socket, in one piece or in several; Life has all of them
--             as the entries of one device. A function of the code is a function from the state
--             to the state and a list of requests to the host (send, sched_setaffinity).
--   Kernel    what a PCI driver takes of the kernel and gives back, as a list of actions.
--   Driver    guestend/driver/huc-driver.c: huc_read, huc_ioctl and irq_handler, and in Probe
--             huc_probe, huc_pci_remove, huc_init and huc_exit. Its ioread32 and iowrite32 are
--             the accesses of Hucdev.Mmio, with four bytes.
--   Demo      guestend/driver/testdemo-drv.c: testdemo_probe, testdemo_pci_remove, testdemo_init
--             and testdemo_exit.
--   Files     saveToFile of the host tools and save_bytecode of guestend/daemon.c.
--   Bpf       guestend/bytecode.c: bpf_prog1, over the interface BpfArray of an array map; Race
--             has the same program on several CPUs at once, an access of the map a step.
--   Daemon    guestend/daemon.c: Recv has recv_bytecode over Driver.read, Poll a round of the
--             polling loop over BpfArray, in During with calls of the guest between its lookups,
--             Masks the mask helpers, Children the fork and kill of main, with Orphans for any
--             number of messages, Main a round of main's loop.
--   Pipeline  client, device, driver and daemon composed for one injected program, in Tool from
--             a file to a file; Affinity composes the guest's calls, the map, the daemon's round
--             and its ioctls with the device, Pinning starts from the calls of runon, Rounds has
--             any number of rounds, Sessions has injections one after the other, and Answer goes
--             from the client to the client.
--   Machine   device, driver and daemon interleaved: a PROGRAM_INJECTION that comes, an
--             interrupt that is served, and each read of recv_bytecode are steps of one
--             relation.
--   Spscq     guestend/simplified-spscq/spscq.h: the queue by whole operations, and in Steps as
--             two threads whose shared accesses interleave in any order. Invariant and Preserve
--             carry the proof for the steps, Whole relates the operations to the steps, Refine
--             has the list of waiting values as the abstract queue, Drain the consumer's
--             progress. Slots and Bench are guestend/simplified-spscq/spscq.cpp: qslotmap_init,
--             the memory that main lays out, and the benchmark's two loops with their packets, a
--             shared access a step of its own as in Steps; Bench.Main has the settings and what
--             main sets up, Bench.Ends what happens after the signal, Bench.Fill a run that does
--             not end, Ilog2 has ilog2.
--   Mlib      guestend/simplified-spscq/mlib.c and mlib.h: time conversion and the mask of
--             runon; Tsc has tsc_init, Spin tsc_sleep_till and spin_for of spscq.cpp.
--   AffinityTest  the programs under guestend/affinity_test: the masks that they ask for, in
--             Counter the threads of affinity_test.c, which count under a mutex, and in Tally
--             those of yield_affinity_test.c, which count with atomic additions; Stress has
--             which bytes a thread of complex.c counts up.
--   Cover     guestend/simplified-spscq/cover.cpp: covered_cachelines and the checks of cover
--             and roll.
--   Client    hostend/injectByteCode.c, injectProgram.c, reset.c and pinonsame.c: what each
--             sends.
--   Tests     concrete machines, messages, maps and queues, and the theorems applied to them.
--
-- Code outside the repository is a parameter: qemu_get_cpu is a table of threads, of which
-- Hucdev.Cpus.Laws.Vcpus states that it has the vCPUs 0 to n - 1; a BPF array is a record of
-- lookup and update with the laws of an array map; the results of recv, accept, malloc, lseek,
-- copy_to_user, fork, nanosleep and the like are arguments; rand is a sequence of numbers for
-- each thread. The host's sched_setaffinity is a function Host of the thread and the mask, which
-- grants a mask or refuses; the same request always gets the same answer. The floating-point
-- quotient of tsc_init is a function of its two numbers. Daemon.Recv.Loop.Calm says that the
-- calls of one fetch succeed.
--
-- The kernel's calls in a probe function are outcomes in a record; std::shuffle is a function of
-- a list and the number of the call, of which Spscq.Slots.Laws.Shuffles states that it keeps the
-- elements.
--
-- Bounds and fuel: a loop over the vCPUs takes fuel, and any fuel above their number is enough;
-- the payload loop of recv_bytecode takes one round for four bytes, and fuel above the payload's
-- length is enough; findPosition takes 64 rounds, one for each bit; covered_cachelines takes a
-- round for each line of 8 slots, 33 for the 256 slots of cover and 513 for the 4096 of roll,
-- whose own loop takes at most 4096 rounds; the draw of an index in complex.c takes as many
-- calls of rand as lie between two that hit the region; ilog2 takes 33 tests of its probe.
-- Fixed-width arithmetic is written out modulo its power of two; registers have 32 bits, masks
-- 64, payload lengths 16.
--
-- In Machine the messages are PROGRAM_INJECTIONs of at most 65516 bytes whose header comes
-- whole, and the daemon's calls other than read succeed; whether a message came since the last
-- header was read is recorded beside the state. The rates that roll compares as floating-point
-- numbers are exact.
--
-- Not modelled: the QEMU type registration, testdemo_read, testdemo_write and rw-testdemo.c,
-- whose effect depends on the size of the kernel's accesses to a device that stores whole words,
-- what the region holds that the threads of complex.c share without a lock, the loops under
-- guestend/affinity_test that only burn time, the timing and printing of the benchmark, its
-- RateLimitedStats, which no code uses, printing, libbpf and the scripts. The kernel's caches
-- and the compiler's reordering are not modelled: a step of the queue, of the benchmark or of
-- the BPF program is atomic and seen at once, as on x86 with the barriers of the code.
pub mod Base
pub mod Memory
pub mod Msg
pub mod Hucdev
pub mod Kernel
pub mod Driver
pub mod Demo
pub mod Files
pub mod Bpf
pub mod Daemon
pub mod Pipeline
pub mod Machine
pub mod Spscq
pub mod Mlib
pub mod AffinityTest
pub mod Cover
pub mod Client
pub mod Tests
