-- ===== src/Lib.antt =====
-- AirDC++ core: a model of the parts of airdcpp/ that decide what is sent, downloaded, searched,
-- hashed and kept, and theorems about it.
--
-- The parts and how they meet. Protocol is `AdcCommand` (airdcpp/protocol/AdcCommand.cpp and .h):
-- Command holds the fields and parameter operations, Escape and Print what toString writes, Parse what
-- the constructor from a line reads; RoundTrip puts the two together, and Rejects is about the lines
-- that it refuses. Queue is the queue item: Segment (airdcpp/core/classes/Segment.h) is the byte range
-- that everything else speaks of; Finished is addFinishedSegment, Next is getNextSegment and
-- checkOverlaps over the state of Item, Parts is the exchange of file parts, Sources the good and bad
-- sources and hasSegment, which asks Next, Downloads the running downloads
-- (airdcpp/queue/QueueItem.cpp and .h); the ends of a download in Downloads and the block loop of
-- recheckFileImpl in Recheck book into Finished (airdcpp/queue/QueueManager.cpp). Bundle is the bundle
-- of files and the queue of each user (airdcpp/queue/Bundle.cpp and UserQueue.cpp): Files its sizes,
-- Users its sources and lists with the choice of the next file, UserQueue what puts bundles in order.
-- Connection is the manager of connections (airdcpp/connection/ConnectionManager.cpp and
-- UserConnection.h): Tokens, Item and Manager the state, Mcn the rules for many connections of a user,
-- Attempts the timer, Handshake the messages of a new connection, Join what the managers of downloads
-- and uploads make of it (airdcpp/transfer/download/DownloadManager.cpp,
-- airdcpp/transfer/upload/UploadManager.cpp). Text is UTF-8 and the substring search
-- (airdcpp/util/text/Text.cpp and StringSearch.h). Search is Search.h and SearchQueue.cpp
-- (airdcpp/search), which takes its priorities from Queue.Item, and SearchQuery.cpp, which matches
-- names and paths by the substring search of Text. Flood is FloodCounter
-- (airdcpp/core/classes/FloodCounter.cpp), Hash.Merkle is MerkleTree
-- (airdcpp/hash/value/MerkleTree.h): Counter is about its blocks and leaves, Reference the root over
-- the base blocks, Joined, Whole and Final put the two together, Pieces is about update, Root and
-- Sizes about getHash and calcBlockSize; Message is MessageCache (airdcpp/message/MessageCache.cpp).
-- Base has what they share.
--
-- Conventions. Text is a list of bytes, a set of segments a list in order, a pointer to a user, an
-- owner or an object a number, since the code only compares them. Offsets, sizes and ticks are natural
-- numbers; where the code subtracts, its guard or the difference modulo a power of two is written out;
-- a request of getNextSegment with a negative size has a constructor of its own. Ticks of the searches
-- and the flood counter are taken to stay below the width of their types. The clock and the random
-- number are arguments of the call that reads them. The floating-point arithmetic of the wanted size
-- and the hasher are parameters, as are the lower case and the numbers of the C library, the orders of
-- bundles and of files, the test of a bundle's file, and what the queue and the hubs answer to a
-- connection. A lock makes a call one step, so the state is passed from call to call; the calls that
-- take the lock more than once, such as onDownloadRunning, are one step too, and what another thread
-- does in between is not modelled.
--
-- Loops. The character loops of AdcCommand, the search of getNextSegment, reduceBlocks, update,
-- getHash, the doubling of calcBlockSize and the two loops of matchLower run on fuel: the length of
-- the text, (size + 1) * (target + 1) rounds, the number of blocks, the length of the data and of the
-- file, the size of the file, the number of positions where the pattern fits, and the length of the
-- text. Where the fuel could decide an answer the result is an option or an outcome of its own; each
-- round of matchLower moves on by one position at least.
--
-- Not modelled: sockets, files, compression, XML and the operating system; the managers that connect
-- the parts; texts for the user. Strings that only travel through are left out of the records.
pub mod Base
pub mod Protocol
pub mod Queue
pub mod Search
pub mod Text
pub mod Connection
pub mod Bundle
pub mod Message
pub mod Hash
pub mod Flood
