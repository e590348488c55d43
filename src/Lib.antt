-- ===== src/Lib.antt =====
-- A model of mod_ngobjweb, the Apache module through which a web server passes requests on to
-- SOPE application instances, in sope-appserver/mod_ngobjweb, and of the parts of the
-- frameworks below it: buffers, bit sets, classes of characters, and codings of texts. The
-- module asks a session name server (snsd) for the instance that serves a session, connects to
-- that, sends it the request, and reads its response. The parts, and the files that model them:
--
--   Socket       read(2), write(2) and close(2) on a connected socket, as a parameter: an
--                implementation over any state, with what the code relies on as `IsReader` (a stream
--                that does not break) and `IsWriter`.
--   Descriptor   NGBufferedDescriptor.c and .h: the buffered socket. `State` has the structure and
--                its constructors, `Input` has _read, _safeRead and _readChar, `Output` has _write,
--                _flush, _safeWrite and _free, `Header` has _writeHttpHeader. Their children relate
--                them to the streams of bytes that the descriptor stands for.
--   Scan         scanhttp.c: NGScanResponseLine and NGScanHeaders, over any reader of characters.
--                `View` relates them to parsers of lists, `Connected` puts them on a descriptor.
--   Config       config.c: the directory configuration, its commands (with the command table of
--                ngobjweb_module.c) and its merge.
--   Sns          sns.c: the query and the answer of _sendSNSQuery, `Address` for
--                _getSNSAddressForRequest, and `Lookup` for _sendSNSQuery as a whole.
--   Handler      handler.c: `Guards` has the tests at the head of ngobjweb_handler with _getConfig,
--                `AppName` _extractAppName, `Body` _readRequestBody, `Connect` _connectInstance,
--                `Request` the transfer of the request line and the headers with _writeInHeaders,
--                `Copy` _copyHeadersToRequest, `Response` the reading of the response and the
--                sending of its content to the client, which run NGScanResponseLine and
--                NGScanHeaders on the descriptor. `Converse` is ngobjweb_handler from the address
--                of the instance on, and `Handle` the whole of it, with the lookup in `Handle/Lookup`.
--   Base64       sope-core/NGExtensions/NGBase64Coding.m: the coding and its methods of NSData.
--   BitSet       sope-core/NGExtensions/NGBitSet.m: the set of numbers as bits, with its enumerator.
--   UrlEscaping  sope-core/NGExtensions/FdExt.subproj/NSString+URLEscaping.m: the escaping of texts for
--                URLs and its way back.
--   ByteBuffer   sope-core/NGStreams/NGByteBuffer.m: the buffer that looks ahead in a stream; `Runs` has
--                the messages of a client of it, `Blocks` readBytes:count:.
--   CharBuffer   sope-core/NGExtensions/NGExtensions/NGCharBuffers.h: the growing buffer.
--   CharClass    the classes of characters of sope-mime/NGMime/NGMimeUtilities.h and of
--                sope-core/NGStreams/NGStreams/NGUrlChars.h.
--   QuotedPrintable
--                the C functions of sope-core/NGExtensions/NGQuotedPrintableCoding.m, and their
--                callers in NGMimeUtilities.h.
--   Prelude      shared names, lists over the native numbers, C characters and atoi.
--   Tests        runs of the model, and the theorems at concrete inputs.
--
-- Functions bear the names of the code in this library's spelling, without the prefix of their
-- file: `Descriptor.Output.safe_write` is NGBufferedDescriptor_safeWrite. A C string is the list
-- of its bytes before the NUL, a buffer with a fill size is the list of the bytes filled in, a
-- descriptor is passed in and handed back with the state of the socket. A null pointer is `none`
-- where the code tests for it; on the descriptor operations, whose callers never pass one, it is
-- not represented.
--
-- Undefined behaviour is represented, not excluded: the flag `faulted` of a descriptor records
-- that a call met with it, and other operations have a result for it. An `int` has 32 bits,
-- little-endian, and a `size_t` 64. `atoi` is that of the C library, which cuts the result of strtol
-- to an `int`. Memory is taken to suffice but for the result of the merge and the descriptors of the
-- handler and the lookup.
--
-- Loops over a socket run on rounds. Those of the descriptor take off a byte at least in each
-- round, so they are given as many rounds as there are bytes to read or write; the parsers and
-- the handler's loops, which are bounded by the stream alone, take the number of rounds as a
-- parameter and have a result of their own for when it does not suffice. Apache's tables are
-- parameters: `table_set`, `table_get` and `table_elts` stand for apr_table_set, apr_table_get
-- and apr_table_elts, and `decimal` for the %i of apr_snprintf.
--
-- The words of a bit set have 32 bits, and so do its sizes and counts, which wrap; an access outside
-- the block is a result. `Strings` stands for what the escaping uses of NSString, and `IsEncoding` for
-- what it relies on.
--
-- The source of a look-ahead buffer is a parameter, with what the code relies on as `IsStream`. Its
-- blocks have a round for each byte that is wanted, as each brings one at least, and the doubling of
-- its size has 31, from 2 to 2^31.
--
-- Sockets, connections and the client's side are parameters: `Plug` stands for socket(2),
-- connect(2) and a connected socket, `Network` for connect(2), a pause and close(2), and `Host`
-- for what the handler uses of Apache and of the system. `Fail` is what a failed write tells of a
-- system, so that a theorem can say that only a failed write keeps a result from coming.
--
-- Not modelled: logging; the branches for Apache 1; the registration of the module with Apache;
-- the release of memory; and the Objective-C frameworks of the repository but for the classes above.
pub mod Prelude
pub mod Socket
pub mod Base64
pub mod BitSet
pub mod ByteBuffer
pub mod CharBuffer
pub mod CharClass
pub mod Descriptor
pub mod QuotedPrintable
pub mod UrlEscaping
pub mod Scan
pub mod Config
pub mod Sns
pub mod Handler
mod Tests
